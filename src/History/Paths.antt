-- ===== src/History/Paths.antt =====
-- The directory that a path stands in.
use mathlib.Core.Path.{subst}
use testmerge.Base.{
  length-append, ℕ, ◌<◌, ◌≡◌, ◌≢◌, refl, sym, ap, ◌∙◌, Bool, true, false, ◌&&◌, List, [], ◌∷◌, ◌++◌,
  length, ◌==◌, if◌then◌else◌, if-false, arith, Bool-cases, inl, inr, ◌⊎◌, All,
}
use testmerge.History.Arrays.{pop-snoc}
use testmerge.History.{
  Text, slash, text_eq, pop, push_front, split, join, root_or, get_parent_directory,
}

-- Texts are compared as JavaScript does.
pub text_eq-true : (a b : Text) → text_eq a b ≡ true → a ≡ b
text_eq-true [] [] h = refl
text_eq-true [] (y ∷ ys) h = ground arith
text_eq-true (x ∷ xs) [] h = ground arith
text_eq-true (x ∷ xs) (y ∷ ys) h = cc (x_is_y, text_eq-true xs ys (ground arith))
  where
    x_is_y : x ≡ y
    x_is_y = ground arith

-- A text without a slash is one piece.
split-name : (name : Text) → All (λ c. (c == slash) ≡ false) name → split name ≡ name ∷ []
unfolding split
split-name [] h = refl
split-name (c ∷ s) (h, hs) = rw (h, split-name s hs) refl

split-pieces : (s : Text) → (w : Text) × (ws : List Text) × (split s ≡ w ∷ ws)
unfolding split
split-pieces [] = ([], [], refl)
split-pieces (c ∷ s) =
    let (w, ws, e) = split-pieces s in
    elim (Bool-cases (c == slash)) [ inl p ↦ ([], split s, rw p) | inr p ↦ (c ∷ w, ws, rw (p, e)) ]

push_front-append :
    (c : ℕ) (w : Text) (ws vs : List Text)
    → push_front c ((w ∷ ws) ++ vs) ≡ push_front c (w ∷ ws) ++ vs
push_front-append c w ws vs = refl

-- A slash and a name behind a directory are one more piece.
split-snoc :
    (dir name : Text)
    → All (λ c. (c == slash) ≡ false) name
    → split (dir ++ slash ∷ name) ≡ split dir ++ name ∷ []
unfolding split
split-snoc [] name h = rw (split-name name h) refl
split-snoc (c ∷ s) name h =
    let (w, ws, e) = split-pieces s in
    elim (Bool-cases (c == slash)) [
      | inl p ↦ rw (split-snoc s name h, p) refl
      | inr p ↦ rw (split-snoc s name h, p, e) refl
    ]

join-push_front :
    (c : ℕ) (w : Text) (ws : List Text) → join (push_front c (w ∷ ws)) ≡ c ∷ join (w ∷ ws)
unfolding join
join-push_front c w [] = refl
join-push_front c w (v ∷ vs) = refl

-- Joining the pieces gives the text.
join-split : (s : Text) → join (split s) ≡ s
unfolding split
join-split [] = unfold join in refl
join-split (c ∷ s) =
    let (w, ws, e) = split-pieces s in
    let ih : join (w ∷ ws) ≡ s = ap join (sym e) ∙ join-split s in
    elim (Bool-cases (c == slash)) [
      | inl p ↦
          rw (p, e) (join-empty w ws ∙ ap (λ x. slash ∷ x) ih ∙ ap (λ x. x ∷ s) (ground arith))
      | inr p ↦ rw (p, e) (join-push_front c w ws ∙ ap (λ x. c ∷ x) ih)
    ]
  where
    join-empty : (w : Text) (ws : List Text) → join ([] ∷ w ∷ ws) ≡ slash ∷ join (w ∷ ws)
    join-empty w ws = unfold join in refl

-- A text has no slash, or it is a directory and a name without one.
by_last_slash :
    (s : Text)
    → All (λ c. (c == slash) ≡ false) s
      ⊎ ((dir : Text) × (name : Text) × (s ≡ dir ++ slash ∷ name)
          × All (λ c. (c == slash) ≡ false) name)
by_last_slash [] = inl tt
by_last_slash (c ∷ s) = elim (by_last_slash s) [
  | inr (dir, name, e, h) ↦ inr (c ∷ dir, name, ap (λ x. c ∷ x) e, h)
  | inl h ↦ elim (Bool-cases (c == slash)) [
    | inl p ↦ inr ([], s, ap (λ x. x ∷ s) (ground arith), h)
    | inr p ↦ inl (p, h)
  ]
]

root_or-join : (ws : List Text) → join ws ≢ [] → root_or ws ≡ join ws
unfolding join
root_or-join [] h = refl
root_or-join ([] ∷ []) h = absurd (h refl)
root_or-join ((c ∷ w) ∷ []) h = refl
root_or-join ([] ∷ v ∷ ws) h = refl
root_or-join ((c ∷ w) ∷ v ∷ ws) h = refl

not_empty : (c : ℕ) (s : Text) → (c ∷ s) ≢ []
not_empty c s e = cc e

longer-ne : (c : ℕ) (dir : Text) (t : Text) → text_eq (c ∷ dir ++ slash ∷ t) (slash ∷ []) ≡ false
longer-ne c [] t = ground arith
longer-ne c (d ∷ ds) t = ground arith

popped :
    (dir name : Text)
    → All (λ c. (c == slash) ≡ false) name
    → pop (split (dir ++ slash ∷ name)) ≡ split dir
popped dir name h = ap pop (split-snoc dir name h) ∙ pop-snoc (split dir) name

abbrev pub is_empty : Text → Bool
is_empty [] = true
is_empty (c ∷ s) = false

-- The parent of a name in a directory is the directory, that of a name in the root the root; a path
-- without a slash has the empty text for a parent.
pub get_parent_directory-child :
    (dir name : Text)
    → All (λ c. (c == slash) ≡ false) name
    → (get_parent_directory (dir ++ slash ∷ name) ≡ (if is_empty dir then slash ∷ [] else dir))
      × (get_parent_directory name ≡ [])
unfolding get_parent_directory
get_parent_directory-child dir name h = (in_directory dir name h, no_directory name h)
  where
    in_directory :
        (dir name : Text)
        → All (λ c. (c == slash) ≡ false) name
        → get_parent_directory (dir ++ slash ∷ name) ≡ (if is_empty dir then slash ∷ [] else dir)
    in_directory [] [] h = refl
    in_directory [] (c ∷ name) h = ap root_or (popped [] (c ∷ name) h) ∙ unfold split in refl
    in_directory (d ∷ dir) name h =
        if-false _ _ (longer-ne d dir name)
        ∙ ap root_or (popped (d ∷ dir) name h)
        ∙ root_or-join (split (d ∷ dir)) (λ e. not_empty d dir (sym (join-split (d ∷ dir)) ∙ e))
        ∙ join-split (d ∷ dir)

    no_directory :
        (name : Text) → All (λ c. (c == slash) ≡ false) name → get_parent_directory name ≡ []
    no_directory [] h = unfold split in unfold pop in unfold join in refl
    no_directory (c ∷ name) h =
        if-false _ _ (ap (λ b. b && text_eq name []) h.0)
        ∙ (ap (λ ws. root_or (pop ws)) (split-name (c ∷ name) h)
            ∙ unfold pop in unfold join in refl)

-- The parent of a path is shorter, but for the root and the empty path, which are their own parents.
pub get_parent_directory-shorter :
    (path : Text)
    → (length (get_parent_directory path) < length path)
      ⊎ ((get_parent_directory path ≡ path) × ((path ≡ slash ∷ []) ⊎ (path ≡ [])))
get_parent_directory-shorter path = elim (by_last_slash path) [
  | inl h ↦ no_slash path h
  | inr (dir, name, e, h) ↦
      subst
        (λ p.
          (length (get_parent_directory p) < length p)
          ⊎ ((get_parent_directory p ≡ p) × ((p ≡ slash ∷ []) ⊎ (p ≡ []))))
        (sym e) (below dir name h (get_parent_directory-child dir name h).0)
]
  where
    no_slash :
        (name : Text)
        → All (λ c. (c == slash) ≡ false) name
        → (length (get_parent_directory name) < length name)
          ⊎ ((get_parent_directory name ≡ name) × ((name ≡ slash ∷ []) ⊎ (name ≡ [])))
    no_slash [] h = inr ((get_parent_directory-child [] [] tt).1, inr refl)
    no_slash (c ∷ name) h =
        inl (omega (arith, ap length (get_parent_directory-child [] (c ∷ name) h).1))

    below :
        (dir name : Text)
        → All (λ c. (c == slash) ≡ false) name
        → get_parent_directory (dir ++ slash ∷ name) ≡ (if is_empty dir then slash ∷ [] else dir)
        → (length (get_parent_directory (dir ++ slash ∷ name)) < length (dir ++ slash ∷ name))
          ⊎ ((get_parent_directory (dir ++ slash ∷ name) ≡ dir ++ slash ∷ name)
              × ((dir ++ slash ∷ name ≡ slash ∷ []) ⊎ (dir ++ slash ∷ name ≡ [])))
    below [] [] h e = inr (e, inl refl)
    below [] (c ∷ name) h e = inl (omega (arith, ap length e))
    below (d ∷ dir) name h e = inl (omega (arith, ap length e, length-append dir (slash ∷ name)))
