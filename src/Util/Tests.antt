-- ===== src/Util/Tests.antt =====
-- jsonDeepEqual of concrete values.
use Prim.Native.String.{len, ◌++◌}
use package.text.Mathlib.TextPositions.{len-append}
use testmerge.Base.{ℕ, zero, suc, ◌≡◌, refl, sym, ap, ◌∙◌, arith, String, true}
use testmerge.Ijson.{Json, number, text, array, object, nil, cons, empty, field, get_field}
use testmerge.Util.{index_fields, json_deep_equal}
use testmerge.Util.Same.{IsSame, json_deep_equal-IsSame}
use testmerge.Util.Confusion.{json_deep_equal-confuses}

-- The text of an index as strokes.
abbrev strokes : ℕ → String
strokes zero = ""
strokes (suc n) = strokes n ++ "|"

len-strokes : (n : ℕ) → len (strokes n) ≡ n
len-strokes zero = refl
len-strokes (suc n) = len-append (strokes n) "|" ∙ omega (arith, len-strokes n)

strokes-injective : (m n : ℕ) → strokes m ≡ strokes n → m ≡ n
strokes-injective m n e = sym (len-strokes m) ∙ ap len e ∙ len-strokes n

abbrev ordered : Json
ordered = object (field "view" (text "term") (field "rows" (number 3) empty))

abbrev turned_round : Json
turned_round = object (field "rows" (number 3) (field "view" (text "term") empty))

ordered-equal : json_deep_equal strokes ordered turned_round ≡ true
unfolding json_deep_equal get_field
ordered-equal = refl

json_deep_equal-IsSame_example : IsSame ordered turned_round
json_deep_equal-IsSame_example =
    json_deep_equal-IsSame strokes ordered turned_round ((refl, (refl, tt)), (tt, (tt, tt)))
      ((refl, (refl, tt)), (tt, (tt, tt))) ordered-equal

json_deep_equal-confuses_example :
    (json_deep_equal strokes (array (cons (number 7) nil)) (array (cons (number 7) nil)) ≡ true)
    × (json_deep_equal strokes
          (array (cons (number 7) nil))
          (object (index_fields strokes 0 (cons (number 7) nil)))
        ≡ true)
json_deep_equal-confuses_example =
    json_deep_equal-confuses strokes strokes-injective (cons (number 7) nil) (tt, tt)
