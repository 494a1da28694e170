-- ===== src/Sqlparse/Ddl/Columns.antt =====
-- The names of the columns of a table under the statements (internal/sqlparse/schema.go).
use interactivecodebase.Base.{
  String, ◌==◌, string_eq, Bool, not, ◌||◌, Option, none, some, List, [], ◌∷◌, ◌++◌, map, In, ◌≡◌,
  refl, sym, ap, ◌∙◌, inl, inr, subst, arith, find,
}
use mathlib.Core.List.{append-nil, append_assoc, map-append}
use interactivecodebase.Base.Distinct.{
  IsDistinct, append-IsDistinct, keep-IsDistinct, replace_first, replace_first-IsDistinct,
}
use interactivecodebase.Sqlparse.Statements.{
  Constraint, ColumnDef, Element, column, constraint, other_element, AlterType, add_column_type,
  drop_column, add_constraint_type, drop_constraint, other_alter, AlterCmd,
}
use interactivecodebase.Sqlparse.Schema.{
  Pos, Column, Table, forbids_null, column_named, add_constraint, add_column_constraints,
  add_column, add_elements,
}
use interactivecodebase.Sqlparse.Ddl.{
  alter_add_column, alter_add_constraint, alter_one, alter_all, rename_column,
}

abbrev pub column_names : Table → List String
column_names t = map (λ c. c.name) t.columns

abbrev pub SameNames : Table → Table → Type 0
SameNames t u = (t.name ≡ u.name) × (t.columns ≡ u.columns)

add_constraint_same :
    (con : Constraint) (columns : List String) (pos : Pos) (t : Table)
    → SameNames (add_constraint con columns pos t) t
unfolding add_constraint
add_constraint_same con columns pos t = ground arith

add_column_constraints_same :
    (name : String) (pos : Pos) (cs : List (Option Constraint)) (t : Table) (b : Bool)
    → SameNames (add_column_constraints name pos cs t b).0 t
unfolding add_column_constraints
add_column_constraints_same name pos [] t b = (refl, refl)
add_column_constraints_same name pos (none ∷ cs) t b = add_column_constraints_same name pos cs t b
add_column_constraints_same name pos (some con ∷ cs) t b =
    let (n1, c1) = add_constraint_same con (name ∷ []) pos t in
    let (n2, c2) =
      add_column_constraints_same name pos cs (add_constraint con (name ∷ []) pos t)
        (b || forbids_null con.contype) in
    (n2 ∙ n1, c2 ∙ c1)

-- A column is added at the end.
abbrev pub AddsNames : Table → Table → List String → Type 0
AddsNames t u names = (u.name ≡ t.name) × (column_names u ≡ column_names t ++ names)

add_column_names :
    (cd : ColumnDef) (pos : Pos) (t : Table) → AddsNames t (add_column cd pos t) (cd.name ∷ [])
unfolding add_column
add_column_names cd pos t =
    let (name_kept, columns_kept) =
      add_column_constraints_same cd.name pos cd.constraints t cd.is_not_null in
    (name_kept, rw columns_kept (map-append _ t.columns _))

abbrev pub element_names : List Element → List String
element_names [] = []
element_names (column cd ∷ es) = cd.name ∷ element_names es
element_names (constraint con ∷ es) = element_names es
element_names (other_element ∷ es) = element_names es

pub add_elements_names :
    (pos : Pos) (es : List Element) (t : Table)
    → AddsNames t (add_elements pos es t) (element_names es)
unfolding add_elements
add_elements_names pos [] t = (refl, sym (append-nil _))
add_elements_names pos (column cd ∷ es) t =
    let (name_kept, one_more) = add_column_names cd pos t in
    let (names_kept, all_more) = add_elements_names pos es (add_column cd pos t) in
    (
      names_kept ∙ name_kept,
      all_more
          ∙ (ap (λ ns. ns ++ element_names es) one_more
              ∙ append_assoc (column_names t) (cd.name ∷ []) (element_names es)),
    )
add_elements_names pos (constraint con ∷ es) t =
    let (name_kept, columns_kept) = add_constraint_same con [] pos t in
    let (names_kept, more) = add_elements_names pos es (add_constraint con [] pos t) in
    (
      names_kept ∙ name_kept,
      more ∙ ap (λ cs. map (λ c. c.name) cs ++ element_names es) columns_kept,
    )
add_elements_names pos (other_element ∷ es) t = add_elements_names pos es t

abbrev pub IsValidTable : Table → Type 0
IsValidTable t = IsDistinct (column_names t)

-- A column that is not found has no name in the list.
not_found :
    (name : String) (cs : List Column)
    → column_named name cs ≡ none
    → In name (map (λ c. c.name) cs)
    → ⊥
unfolding column_named find
not_found name [] e m = m
not_found name (c ∷ cs) e (inl same) = ground arith
not_found name (c ∷ cs) e (inr m) = not_found name cs (ground arith) m

add_column-IsValidTable :
    (cd : ColumnDef) (pos : Pos) (t : Table)
    → IsValidTable t
    → column_named cd.name t.columns ≡ none
    → IsValidTable (add_column cd pos t)
add_column-IsValidTable cd pos t v e =
    subst IsDistinct (sym (add_column_names cd pos t).1)
      (append-IsDistinct cd.name (column_names t) v (not_found cd.name t.columns e))

-- Each command of ALTER TABLE keeps the name of the table, and its columns distinct.
abbrev Keeps : Table → Table → Type 0
Keeps t u = (u.name ≡ t.name) × (IsValidTable t → IsValidTable u)

add_constraint-Keeps :
    (con : Constraint) (pos : Pos) (t : Table) → Keeps t (add_constraint con [] pos t)
add_constraint-Keeps con pos t =
    let (same, kept) = add_constraint_same con [] pos t in
    (same, λ v. subst (λ cs. IsDistinct (map (λ c. c.name) cs)) (sym kept) v)

alter_add_column-Keeps : (pos : Pos) (e : Element) (t : Table) → Keeps t (alter_add_column pos e t)
alter_add_column-Keeps pos (column cd) t = by_search (column_named cd.name t.columns) refl
  where
    by_search :
        (found : Option Column)
        → column_named cd.name t.columns ≡ found
        → Keeps t (elim found [ none ↦ add_column cd pos t | some c ↦ t ])
    by_search none new =
        ((add_column_names cd pos t).0, λ v. add_column-IsValidTable cd pos t v new)
    by_search (some c) old = (refl, λ v. v)
alter_add_column-Keeps pos (constraint con) t = (refl, λ v. v)
alter_add_column-Keeps pos other_element t = (refl, λ v. v)

alter_add_constraint-Keeps :
    (pos : Pos) (e : Element) (t : Table) → Keeps t (alter_add_constraint pos e t)
alter_add_constraint-Keeps pos (constraint con) t = add_constraint-Keeps con pos t
alter_add_constraint-Keeps pos (column cd) t = (refl, λ v. v)
alter_add_constraint-Keeps pos other_element t = (refl, λ v. v)

alter_as-Keeps :
    (kind : AlterType) (pos : Pos) (cmd : AlterCmd) (t : Table)
    → cmd.subtype ≡ kind
    → Keeps t (alter_one pos cmd t)
unfolding alter_one
alter_as-Keeps add_column_type pos cmd t e = rw e (alter_add_column-Keeps pos cmd.definition t)
alter_as-Keeps drop_column pos cmd t e =
    rw e (refl, λ v. keep-IsDistinct (λ c. c.name) (λ c. not (c.name == cmd.name)) t.columns v)
alter_as-Keeps add_constraint_type pos cmd t e =
    rw e (alter_add_constraint-Keeps pos cmd.definition t)
alter_as-Keeps drop_constraint pos cmd t e = rw e (refl, λ v. v)
alter_as-Keeps other_alter pos cmd t e = rw e (refl, λ v. v)

pub alter_all-Keeps :
    (pos : Pos) (cmds : List (Option AlterCmd)) (t : Table) → Keeps t (alter_all pos cmds t)
unfolding alter_all
alter_all-Keeps pos [] t = (refl, λ v. v)
alter_all-Keeps pos (none ∷ cmds) t = alter_all-Keeps pos cmds t
alter_all-Keeps pos (some cmd ∷ cmds) t =
    let (n1, k1) = alter_as-Keeps cmd.subtype pos cmd t refl in
    let (n2, k2) = alter_all-Keeps pos cmds (alter_one pos cmd t) in (n2 ∙ n1, λ v. k2 (k1 v))

rename_column_names :
    (old new : String) (cs : List Column)
    → map (λ c. c.name) (rename_column old new cs) ≡ replace_first old new (map (λ c. c.name) cs)
unfolding rename_column replace_first
rename_column_names old new [] = refl
rename_column_names old new (c ∷ cs) = ground (arith, rename_column_names old new cs)

pub rename_column-IsDistinct :
    (old new : String) (cs : List Column)
    → IsDistinct (map (λ c. c.name) cs)
    → (In new (map (λ c. c.name) cs) → ⊥)
    → IsDistinct (map (λ c. c.name) (rename_column old new cs))
rename_column-IsDistinct old new cs d fresh =
    subst IsDistinct (sym (rename_column_names old new cs))
      (replace_first-IsDistinct old new _ d fresh)
