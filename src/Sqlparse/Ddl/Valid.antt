-- ===== src/Sqlparse/Ddl/Valid.antt =====
-- The names of tables and columns stay distinct (internal/sqlparse/schema.go).
use interactivecodebase.Base.{
  ℕ, String, string_eq, Option, none, some, List, [], ◌∷◌, ◌++◌, map, In, All, ◌≡◌, refl, sym,
  subst, arith, All-append, All-map,
}
use mathlib.Core.List.{map-append}
use interactivecodebase.Base.Distinct.{
  IsDistinct, append-IsDistinct, keep-IsDistinct, replace_first, replace_first-IsDistinct,
}
use interactivecodebase.Sqlparse.{rel_name_of, strs}
use interactivecodebase.Sqlparse.Statements.{
  Nodes, Element, ObjectType, table_object, index_object, column_object, other_object, Statement,
  create, alter, drop, rename, index, other_statement,
}
use interactivecodebase.Sqlparse.Schema.{
  Pos, Table, table_named, update_table, create_table, add_elements, new_table,
}
use interactivecodebase.Sqlparse.Ddl.{
  alter_all, drop_tables, drop_indexes, without_index, last_name, repoint_keys, rename_object,
  rename_column, add_index, run, run_all, pos_of,
}
use interactivecodebase.Sqlparse.Ddl.Columns.{
  column_names, element_names, add_elements_names, IsValidTable, alter_all-Keeps,
  rename_column-IsDistinct,
}
use interactivecodebase.Sqlparse.Ddl.Named.{
  table_names, IsValid, not_found, update_table_names, update_table_All, update_table-IsValid,
  map-IsValid, keep_All,
}

-- The names that a statement gives are new: the columns of a new table are distinct, and a table or a column gets
-- no name that another of the schema, or of its table, has. PostgreSQL asks less where tables lie in several
-- schemas: it lets `app.users` be renamed to `people` beside `public.people`.
abbrev pub GivesNew : Statement → List Table → Type 0
GivesNew (create rel elements) ts = IsDistinct (element_names elements)
GivesNew (rename table_object rel new sub) ts = In new (table_names ts) → ⊥
GivesNew (rename column_object rel new sub) ts =
    All (λ t. t.name ≡ rel_name_of rel → In new (column_names t) → ⊥) ts
GivesNew (rename index_object rel new sub) ts = Unit
GivesNew (rename other_object rel new sub) ts = Unit
GivesNew (alter rel cmds) ts = Unit
GivesNew (drop kind objs) ts = Unit
GivesNew (index rel name params is_unique) ts = Unit
GivesNew other_statement ts = Unit

create_table-IsValid :
    (name : String) (es : List Element) (pos : Pos) (ts : List Table)
    → IsDistinct (element_names es)
    → IsValid ts
    → IsValid (create_table name es pos ts)
unfolding create_table
create_table-IsValid name es pos ts d v = by_search (table_named name ts) refl
  where
    by_search :
        (found : Option Table)
        → table_named name ts ≡ found
        → IsValid (elim found [
          | none ↦ ts ++ add_elements pos es (new_table name pos) ∷ []
          | some t ↦ ts
        ])
    by_search none new =
        let (named, columns) = add_elements_names pos es (new_table name pos) in
        (
          subst IsDistinct (sym (map-append (λ t. t.name) ts _)) (
              append-IsDistinct _ (table_names ts) v.0
                (λ m. not_found name ts new (subst (λ n. In n (table_names ts)) named m))),
          All-append IsValidTable ts _ v.1 (subst IsDistinct (sym columns) d, tt),
        )
    by_search (some t) old = v

drop_tables-IsValid :
    (objs : List Nodes) (ts : List Table) → IsValid ts → IsValid (drop_tables objs ts)
unfolding drop_tables
drop_tables-IsValid [] ts v = v
drop_tables-IsValid (obj ∷ objs) ts v =
    drop_tables-IsValid objs _ (keep-IsDistinct (λ t. t.name) _ ts v.0, keep_All _ ts v.1)

drop_indexes-IsValid :
    (objs : List Nodes) (ts : List Table) → IsValid ts → IsValid (drop_indexes objs ts)
unfolding drop_indexes
drop_indexes-IsValid [] ts v = v
drop_indexes-IsValid (obj ∷ objs) ts v =
    elim (last_name (strs obj))
      as (λ last. IsValid (elim last [
        | none ↦ drop_indexes objs ts
        | some name ↦ drop_indexes objs (map (without_index name) ts)
      ])) [
        | none ↦ drop_indexes-IsValid objs ts v
        | some name ↦
            drop_indexes-IsValid objs _
              (map-IsValid (without_index name) ts (λ t. refl) (λ t. refl) v)
      ]

update_renamed :
    (old new : String) (ts : List Table)
    → table_names (update_table old (λ t. record t { name = new }) ts)
      ≡ replace_first old new (table_names ts)
unfolding update_table replace_first
update_renamed old new [] = refl
update_renamed old new (t ∷ ts) = ground (arith, update_renamed old new ts)

rename_table-IsValid :
    (old new sub : String) (ts : List Table)
    → (In new (table_names ts) → ⊥)
    → IsValid ts
    → IsValid (rename_object table_object old new sub ts)
unfolding rename_object
rename_table-IsValid old new sub ts fresh v =
    map-IsValid (repoint_keys old new) _ (λ t. refl) (λ t. refl)
      (
        subst IsDistinct (sym (update_renamed old new ts))
            (replace_first-IsDistinct old new _ v.0 fresh),
        update_table_All IsValidTable old (λ t. record t { name = new }) ts
            (All-map IsValidTable _ ts (λ t ok_table e. ok_table) v.1) v.1,
      )

rename_column-IsValid :
    (old new sub : String) (ts : List Table)
    → All (λ t. t.name ≡ old → In new (column_names t) → ⊥) ts
    → IsValid ts
    → IsValid (rename_object column_object old new sub ts)
unfolding rename_object
rename_column-IsValid old new sub ts fresh v = (
  subst IsDistinct (sym (update_table_names old _ ts (λ t. refl))) v.0,
  update_table_All IsValidTable old _ ts (renamed ts fresh v.1) v.1,
)
  where
    renamed :
        (ts : List Table)
        → All (λ t. t.name ≡ old → In new (column_names t) → ⊥) ts
        → All IsValidTable ts
        → All
            (λ t. t.name ≡ old → IsDistinct (map (λ c. c.name) (rename_column sub new t.columns)))
            ts
    renamed [] fresh all = tt
    renamed (t ∷ ts) fresh all = (
      λ e. rename_column-IsDistinct sub new t.columns all.0 (fresh.0 e),
      renamed ts fresh.1 all.1,
    )

run-IsValid :
    (pos : Pos) (st : Statement) (ts : List Table)
    → GivesNew st ts
    → IsValid ts
    → IsValid (run pos st ts)
unfolding run rename_object add_index
run-IsValid pos (create rel es) ts a v = create_table-IsValid (rel_name_of rel) es pos ts a v
run-IsValid pos (alter rel cmds) ts a v =
    update_table-IsValid (rel_name_of rel) (alter_all pos cmds) ts
      (λ t. (alter_all-Keeps pos cmds t).0) (λ t. (alter_all-Keeps pos cmds t).1) v
run-IsValid pos (drop table_object objs) ts a v = drop_tables-IsValid objs ts v
run-IsValid pos (drop index_object objs) ts a v = drop_indexes-IsValid objs ts v
run-IsValid pos (drop column_object objs) ts a v = v
run-IsValid pos (drop other_object objs) ts a v = v
run-IsValid pos (rename kind rel new sub) ts a v =
    elim (table_named (rel_name_of rel) ts)
      as (λ found.
        IsValid
          (elim found [ none ↦ ts | some t ↦ rename_object kind (rel_name_of rel) new sub ts ])) [
            | none ↦ v
            | some t ↦ renamed kind a
          ]
  where
    renamed :
        (kind : ObjectType)
        → GivesNew (rename kind rel new sub) ts
        → IsValid (rename_object kind (rel_name_of rel) new sub ts)
    renamed table_object a = rename_table-IsValid (rel_name_of rel) new sub ts a v
    renamed column_object a = rename_column-IsValid (rel_name_of rel) new sub ts a v
    renamed index_object a = v
    renamed other_object a = v
run-IsValid pos (index rel name params is_unique) ts a v =
    update_table-IsValid (rel_name_of rel) (add_index name params is_unique pos) ts (λ t. refl)
      (λ t ok_table. ok_table) v
run-IsValid pos other_statement ts a v = v

-- Each statement of a file gives new names when its turn comes.
abbrev pub AllGiveNew : String → String → List (Statement × ℕ) → List Table → Type 0
AllGiveNew file sql [] ts = Unit
AllGiveNew file sql ((st, offset) ∷ sts) ts =
    GivesNew st ts × AllGiveNew file sql sts (run (pos_of file sql offset) st ts)

-- A file of statements whose new names are new when their turn comes (the columns of a created table distinct,
-- the name that a table or a column is renamed to not yet that of another) keeps the names of the tables distinct,
-- and in each table the names of its columns.
pub run_all-IsValid :
    (file sql : String) (sts : List (Statement × ℕ)) (ts : List Table)
    → AllGiveNew file sql sts ts
    → IsValid ts
    → IsValid (run_all file sql sts ts)
unfolding run_all
run_all-IsValid file sql [] ts a v = v
run_all-IsValid file sql ((st, offset) ∷ sts) ts a v =
    run_all-IsValid file sql sts _ a.1 (run-IsValid (pos_of file sql offset) st ts a.0 v)
