-- ===== src/Sqlparse/Query/Tables.antt =====
-- No table is listed twice (internal/sqlparse/query.go).
use interactivecodebase.Base.{
  ℕ, String, ◌==◌, ◌≡◌, refl, sym, subst, ap, string_eq, Bool, true, false, ◌&&◌, Option, List, [],
  ◌∷◌, map, contains, Result, ok, err, if◌then◌else◌, arith,
}
use interactivecodebase.Base.Distinct.{IsDistinct, with_last, with_last-IsDistinct}
use interactivecodebase.Mermaid.{Texts}
use interactivecodebase.Sqlparse.{parse}
use interactivecodebase.Sqlparse.Query.{
  TableUse, Statement, Relation, ColumnRef, Gathered, use_table, use_rels, add_column, add_refs,
  analyze_stmt, analyze_all, scan_words, scan_tables, query, with_columns, or_select, target_of,
  written_of, rel_name, column_of, table_of, analyzed, scanned, Query, word_op, merged,
}

abbrev pub names : List TableUse → List String
names us = map (λ u. u.name) us

abbrev KeepsName : (TableUse → TableUse) → Type 0
KeepsName change = (u : TableUse) → (change u).name ≡ u.name

merged_name : (op : String) (u : TableUse) → (merged op u).name ≡ u.name
unfolding merged
merged_name op u = ground arith

names-use_table :
    (n op : String) (change : TableUse → TableUse) (us : List TableUse)
    → KeepsName change
    → names (use_table n op change us) ≡ with_last n (names us)
unfolding use_table contains
names-use_table n op change [] kept =
    ap (λ x. x ∷ []) (kept (record { name = n; op = op; columns = [] }))
names-use_table n op change (u ∷ us) kept =
    ground (arith, names-use_table n op change us kept, kept (merged op u), merged_name op u)

use_table-IsDistinct :
    (n op : String) (change : TableUse → TableUse) (us : List TableUse)
    → KeepsName change
    → IsDistinct (names us)
    → IsDistinct (names (use_table n op change us))
use_table-IsDistinct n op change us kept d =
    subst IsDistinct (sym (names-use_table n op change us kept))
      (with_last-IsDistinct n (names us) d)

use_rels-IsDistinct :
    (g : Gathered) (rs : List Relation) (aliases : Texts) (us : List TableUse)
    → IsDistinct (names us)
    → IsDistinct (names (use_rels g rs aliases us).1)
unfolding use_rels
use_rels-IsDistinct g [] aliases us d = d
use_rels-IsDistinct g (r ∷ rs) aliases us d = use_rels-IsDistinct g rs _ _ (
    by_test (or_select (target_of g.targets r.id)) (written_of g.written r.id)
      (r.range.schema_name == "" && contains g.ctes (rel_name r)))
  where
    by_test :
        (op : String) (cols : List String) (b : Bool)
        → IsDistinct (names (if b then us else use_table (rel_name r) op (with_columns cols) us))
    by_test op cols true = d
    by_test op cols false =
        use_table-IsDistinct (rel_name r) op (with_columns cols) us (λ u. refl) d

names-add_column :
    (table col : String) (us : List TableUse) → names (add_column table col us) ≡ names us
unfolding add_column
names-add_column table col [] = refl
names-add_column table col (u ∷ us) = ground (arith, names-add_column table col us)

add_refs-IsDistinct :
    (aliases : Texts) (tables : List String) (cs : List ColumnRef) (us : List TableUse)
    → IsDistinct (names us)
    → IsDistinct (names (add_refs aliases tables cs us))
unfolding add_refs
add_refs-IsDistinct aliases tables [] us d = d
add_refs-IsDistinct aliases tables (c ∷ cs) us d =
    add_refs-IsDistinct aliases tables cs _ (by_test _)
  where
    by_test :
        (b : Bool)
        → IsDistinct (
            names (
              if b
              then us
              else add_column (table_of aliases tables c.qualifiers) (column_of c.last) us))
    by_test true = d
    by_test false = subst IsDistinct (sym (names-add_column _ _ us)) d

analyze_all-IsDistinct :
    (sts : List (Statement × ℕ)) (ops : List String) (us : List TableUse)
    → IsDistinct (names us)
    → IsDistinct (names (analyze_all sts ops us).1)
unfolding analyze_all analyze_stmt
analyze_all-IsDistinct [] ops us d = d
analyze_all-IsDistinct ((st, offset) ∷ sts) ops us d =
    analyze_all-IsDistinct sts _ _ (add_refs-IsDistinct _ _ _ _ (use_rels-IsDistinct _ _ _ us d))

module _ (first_word : String → Option String) (table_words : String → List (String × String))
    (lower : String → String) where
  scan_words-IsDistinct :
      (op : String) (ws : List (String × String)) (us : List TableUse)
      → IsDistinct (names us)
      → IsDistinct (names (scan_words first_word table_words lower op ws us))
  unfolding scan_words
  scan_words-IsDistinct op [] us d = d
  scan_words-IsDistinct op ((word, name) ∷ ws) us d = scan_words-IsDistinct op ws _ (by_test _)
    where
      by_test :
          (b : Bool)
          → IsDistinct (
              names (
                if b
                then us
                else use_table name
                    (word_op first_word table_words lower op (lower word))
                    (λ u. u)
                    us))
      by_test true = d
      by_test false = use_table-IsDistinct name _ (λ u. u) us (λ u. refl) d

  -- A Query lists each table once, whether its text parses or is only searched for table names.
  pub query-IsDistinct :
      {E : Type 0} (pg_parse : String → Result E (List (Statement × ℕ))) (sql : String)
      → IsDistinct (names (query first_word table_words lower pg_parse sql).tables)
  unfolding query scan_tables
  query-IsDistinct {E} pg_parse sql = by_result (parse pg_parse sql).0
    where
      by_result :
          (r : Result E (List (Statement × ℕ)))
          → IsDistinct (
              names
                (elim r as (λ _. Query E) [
                  | err e ↦ scanned first_word table_words lower pg_parse sql e
                  | ok sts ↦
                      analyzed first_word table_words lower pg_parse sts (parse pg_parse sql).1
                ]).tables)
      by_result (err e) = scan_words-IsDistinct _ (table_words sql) [] tt
      by_result (ok sts) = analyze_all-IsDistinct sts [] [] tt
