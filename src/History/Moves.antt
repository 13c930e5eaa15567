-- ===== src/History/Moves.antt =====
-- Going, going back and going forward: which moves undo each other, and how much is remembered.
use testmerge.Base.{
  ℕ, zero, suc, ◌≤◌, ◌<◌, ◌≡◌, refl, ap, ◌∙◌, Bool, some, List, [], ◌∷◌, ◌++◌, length,
  length-append, ltb, if-false, arith,
}
use testmerge.History.Arrays.{pop-snoc, last_of-snoc, pop-last_of, length-pop}
use testmerge.History.{
  Text, max_history, pop, shift, last_of, trim, drop_oldest, or_none, HistoryMeta, HistoryUpdate,
  merge_meta, back_from, go_history_back, go_history_forward, go_history,
}

-- With the length of the list for fuel the loop ends with a list that is not too long.
pub length-trim :
    (fuel : ℕ) (xs : List Text)
    → length xs ≤ fuel
    → (length (trim fuel xs) ≤ max_history) × (length (trim fuel xs) ≤ length xs)
unfolding trim
length-trim zero xs h = (omega arith, omega arith)
length-trim (suc fuel) [] h = (ground arith, ground arith)
length-trim (suc fuel) (x ∷ xs) h =
    let (a, b) = length-trim fuel (pop (x ∷ xs)) (omega (arith, length-pop x xs)) in
    (ground (arith, length-pop x xs), ground (arith, length-pop x xs))

pub length-drop_oldest :
    (xs : List Text)
    → (length xs ≤ suc max_history → length (drop_oldest xs) ≤ max_history)
      × (length (drop_oldest xs) ≤ length xs)
length-drop_oldest [] = (λ h. omega arith, ground arith)
length-drop_oldest (x ∷ xs) = (λ h. ground arith, ground arith)

back_from-snoc :
    (cur x : Text) (xs forward : List Text) (b : Bool)
    → back_from cur (xs ++ x ∷ []) forward b
      ≡ some (record { value = x; history = some xs; history_forward = some (cur ∷ forward) })
back_from-snoc cur x [] forward b = unfold pop in unfold last_of in refl
back_from-snoc cur x (y ∷ ys) forward b = simp (pop-snoc (y ∷ ys) x, last_of-snoc y ys x) refl

drop_oldest-short : (xs : List Text) → length xs ≤ max_history → drop_oldest xs ≡ xs
drop_oldest-short xs h = if-false {b = ltb max_history (length xs)} (shift xs) xs (ground arith)

drop_none :
    (xs : List Text) (x : Text)
    → length xs < max_history
    → drop_oldest (xs ++ x ∷ []) ≡ xs ++ x ∷ []
drop_none xs x h = drop_oldest-short (xs ++ x ∷ []) (omega (arith, length-append xs (x ∷ [])))

-- With fewer than twenty entries behind, going to a value and back restores the value and the
-- entries behind; the value left stands alone in front.
pub go-back :
    (cur new : Text) (meta : HistoryMeta) (b : Bool)
    → length (or_none meta.history) < max_history
    → go_history_back new (merge_meta meta (go_history cur new meta)) b
      ≡ some (record {
        value = cur;
        history = some (or_none meta.history);
        history_forward = some (new ∷ []);
      })
unfolding go_history go_history_back
go-back cur new meta b h =
    ap (λ xs. back_from new xs [] b) (drop_none (or_none meta.history) cur h)
    ∙ back_from-snoc new cur (or_none meta.history) [] b

-- With at least one and at most twenty entries behind, going back and then forward restores the value,
-- the entries behind and the entries in front.
pub back-forward :
    (cur h : Text) (hs : List Text) (meta : HistoryMeta) (b : Bool)
    → meta.history ≡ some (h ∷ hs)
    → length (h ∷ hs) ≤ max_history
    → (u : HistoryUpdate) × (go_history_back cur meta b ≡ some u)
      × (go_history_forward u.value (merge_meta meta u)
          ≡ some (record {
            value = cur;
            history = some (h ∷ hs);
            history_forward = some (or_none meta.history_forward);
          }))
unfolding go_history_back go_history_forward
back-forward cur h hs meta b e bound = (
  record {
    value = last_of h hs;
    history = some (pop (h ∷ hs));
    history_forward = some (cur ∷ or_none meta.history_forward);
  },
  ap (λ o. back_from cur (or_none o) (or_none meta.history_forward) b) e,
  ap
      (λ xs. some (record {
        value = cur;
        history = some xs;
        history_forward = some (or_none meta.history_forward);
      }))
      (ap drop_oldest (pop-last_of h hs) ∙ drop_oldest-short (h ∷ hs) bound),
)
