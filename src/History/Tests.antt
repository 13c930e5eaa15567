-- ===== src/History/Tests.antt =====
-- The theorems on histories at concrete paths.
use testmerge.Base.{◌≡◌, refl, arith, true, some, [], ◌∷◌}
use testmerge.History.{
  Text, slash, or_none, HistoryMeta, HistoryUpdate, merge_meta, get_parent_directory, go_history,
  go_history_back, go_history_forward,
}
use testmerge.History.Moves.{go-back, back-forward}

abbrev home : Text
home = slash ∷ b'h' ∷ []

abbrev docs : Text
docs = slash ∷ b'h' ∷ slash ∷ b'd' ∷ []

abbrev meta : HistoryMeta
meta = record { history = some (home ∷ []); history_forward = some ([] ∷ []) }

docs_in_home : get_parent_directory docs ≡ home
unfolding get_parent_directory
docs_in_home = refl

go-back_example :
    go_history_back docs (merge_meta meta (go_history home docs meta)) true
    ≡ some (record {
      value = home;
      history = some (or_none meta.history);
      history_forward = some (docs ∷ []);
    })
go-back_example = go-back home docs meta true (omega arith)

back-forward_example :
    (u : HistoryUpdate) × (go_history_back docs meta true ≡ some u)
    × (go_history_forward u.value (merge_meta meta u)
        ≡ some (record {
          value = docs;
          history = some (home ∷ []);
          history_forward = some (or_none meta.history_forward);
        }))
back-forward_example = back-forward docs home [] meta true refl (omega arith)
