-- ===== src/Flow/Text/Lines.antt =====
-- The number of the lines that WriteText writes (internal/flow/text.go).
use interactivecodebase.Base.{
  ℕ, suc, ◌+◌, ◌≡◌, refl, String, Bool, true, false, List, [], ◌∷◌, ◌++◌, length, ap, arith,
}
use interactivecodebase.Flow.Tree.{Step, step, Steps, nil, cons, visit, visit_all}
use interactivecodebase.Flow.Text.{write_text, write_child, write_children}

length-++ : {A : Type 0} (xs ys : List A) → length (xs ++ ys) ≡ length xs + length ys
length-++ [] ys = omega arith
length-++ (x ∷ xs) ys = grind (arith, length-++ xs ys)

length-++_cong :
    {A B : Type 0} (xs xs' : List A) (ys ys' : List B)
    → length xs ≡ length ys
    → length xs' ≡ length ys'
    → length (xs ++ xs') ≡ length (ys ++ ys')
length-++_cong xs xs' ys ys' h k = grind (arith, length-++ xs xs', length-++ ys ys')

mutual
  unfolding write_child visit

  length-write_child :
      (quote : String → String) (prefix : String) (last : Bool) (depth : ℕ) (s : Step)
      → length (write_child quote prefix last s) ≡ length (visit depth s)
  length-write_child quote prefix last depth (step i ss) =
      ap suc (length-write_children quote _ (suc depth) ss)

  length-write_children :
      (quote : String → String) (prefix : String) (depth : ℕ) (ss : Steps)
      → length (write_children quote prefix ss) ≡ length (visit_all depth ss)
  length-write_children quote prefix depth nil = refl
  length-write_children quote prefix depth (cons s nil) =
      grind (arith, length-write_child quote prefix true depth s, length-++ (visit depth s) [])
  length-write_children quote prefix depth (cons s (cons t more)) =
      length-++_cong _ _ _ _ (length-write_child quote prefix false depth s)
        (length-write_children quote prefix depth (cons t more))

-- WriteText writes one line for each step that Walk visits.
pub length-write_text :
    (quote : String → String) (s : Step) → length (write_text quote s) ≡ length (visit 0 s)
unfolding write_text visit
length-write_text quote (step i ss) = ap suc (length-write_children quote "" 1 ss)
