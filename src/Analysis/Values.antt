-- ===== src/Analysis/Values.antt =====
-- Sets of texts that a value may have (internal/analysis/values.go): the functions on them.
use interactivecodebase.Base.{
  ℕ, ◌*◌, String, ◌<>◌, ◌==◌, string_eq, not, ◌||◌, ◌⊎◌, ◌↔◌, inl, inr, ltb, List, [], ◌∷◌, ◌++◌,
  contains, keep, length, In, if◌then◌else◌,
}
use interactivecodebase.Base.Distinct.{IsDistinct, with_last, with_last-IsDistinct, In-with_last}

-- What stands for a part of a text that is not known.
abbrev pub unknown : String
unknown = "{?}"

abbrev pub max_eval_values : ℕ
max_eval_values = 32

unfoldable pub union : List String → List String → List String
union xs [] = xs
union xs (y ∷ ys) = union (if contains xs y then xs else xs ++ y ∷ []) ys

unfoldable pub drop_empty : List String → List String
drop_empty xs =
    if ltb (length xs) 2 || not (contains xs "") then xs else keep (λ x. not (x == "")) xs

unfoldable pub concat_one : String → List String → List String → List String
concat_one x [] out = out
concat_one x (y ∷ ys) out = concat_one x ys (union out ((x <> y) ∷ []))

unfoldable pub concat_all : List String → List String → List String → List String
concat_all [] ys out = out
concat_all (x ∷ xs) ys out = concat_all xs ys (concat_one x ys out)

unfoldable pub concat : List String → List String → List String
concat xs ys =
    if ltb max_eval_values (length xs * length ys) then unknown ∷ [] else concat_all xs ys []

unfoldable pub limit : List String → List String
limit xs = if ltb max_eval_values (length xs) then unknown ∷ [] else xs

-- The union of two lists has the texts of both, and repeats none that the first does not.
pub union_lem :
    (xs ys : List String)
    → (IsDistinct xs → IsDistinct (union xs ys))
      × ((z : String) → In z (union xs ys) ↔ (In z xs ⊎ In z ys))
unfolding union
union_lem xs [] = (λ d. d, λ z. (inl, λ h. elim h [ inl m ↦ m | inr n ↦ absurd n ]))
union_lem xs (y ∷ ys) =
    let (distinct, members) = union_lem (with_last y xs) ys in
    (
      λ d. distinct (with_last-IsDistinct y xs d),
      λ z. (
        λ h. elim ((members z).0 h) [
          | inl i ↦ elim ((In-with_last z y xs).0 i) [
            | inl old ↦ inl old
            | inr same ↦ inr (inl same)
          ]
          | inr i ↦ inr (inr i)
        ],
        λ h. (members z).1 (elim h [
          | inl i ↦ inl ((In-with_last z y xs).1 (inl i))
          | inr i ↦ elim i [ inl same ↦ inl ((In-with_last z y xs).1 (inr same)) | inr j ↦ inr j ]
        ]),
      ),
    )
