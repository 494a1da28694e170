-- ===== src/Sqlparse/Ddl/Named.antt =====
-- Tables with distinct names (internal/sqlparse/schema.go): what a change of them keeps.
use interactivecodebase.Base.{
  String, ◌==◌, string_eq, Bool, none, List, [], ◌∷◌, map, keep, In, All, ◌≡◌, refl, sym, inl, inr,
  subst, arith, find, Bool-cases, ap₂, All-map,
}
use interactivecodebase.Base.Distinct.{IsDistinct}
use interactivecodebase.Sqlparse.Schema.{Table, table_named, update_table}
use interactivecodebase.Sqlparse.Ddl.Columns.{IsValidTable}

abbrev pub table_names : List Table → List String
table_names ts = map (λ t. t.name) ts

-- No two tables have one name, and no two columns of a table.
abbrev pub IsValid : List Table → Type 0
IsValid ts = IsDistinct (table_names ts) × All IsValidTable ts

pub not_found :
    (name : String) (ts : List Table) → table_named name ts ≡ none → In name (table_names ts) → ⊥
unfolding table_named find
not_found name [] e m = m
not_found name (t ∷ ts) e (inl same) = ground arith
not_found name (t ∷ ts) e (inr m) = not_found name ts (ground arith) m

pub update_table_names :
    (name : String) (f : Table → Table) (ts : List Table)
    → ((t : Table) → (f t).name ≡ t.name)
    → table_names (update_table name f ts) ≡ table_names ts
unfolding update_table
update_table_names name f [] same = refl
update_table_names name f (t ∷ ts) same = ground (arith, same t, update_table_names name f ts same)

pub update_table_All :
    (P : Table → Type 0) (name : String) (f : Table → Table) (ts : List Table)
    → All (λ t. t.name ≡ name → P (f t)) ts
    → All P ts
    → All P (update_table name f ts)
unfolding update_table
update_table_All P name f [] step all = tt
update_table_All P name f (t ∷ ts) step all = elim (Bool-cases (t.name == name)) [
  | inl h ↦ rw h (step.0 (ground arith), all.1)
  | inr h ↦ rw h (all.0, update_table_All P name f ts step.1 all.1)
]

-- A change of the first table of a name that keeps names and validity.
pub update_table-IsValid :
    (name : String) (f : Table → Table) (ts : List Table)
    → ((t : Table) → (f t).name ≡ t.name)
    → ((t : Table) → IsValidTable t → IsValidTable (f t))
    → IsValid ts
    → IsValid (update_table name f ts)
update_table-IsValid name f ts same step v = (
  subst IsDistinct (sym (update_table_names name f ts same)) v.0,
  update_table_All IsValidTable name f ts
      (All-map IsValidTable _ ts (λ t ok_table e. step t ok_table) v.1) v.1,
)

pub map_names :
    (f : Table → Table) (ts : List Table)
    → ((t : Table) → (f t).name ≡ t.name)
    → table_names (map f ts) ≡ table_names ts
map_names f [] same = refl
map_names f (t ∷ ts) same = ap₂ ◌∷◌ (same t) (map_names f ts same)

pub map_All :
    (f : Table → Table) (ts : List Table)
    → ((t : Table) → (f t).columns ≡ t.columns)
    → All IsValidTable ts
    → All IsValidTable (map f ts)
map_All f [] same all = tt
map_All f (t ∷ ts) same all =
    (subst (λ cs. IsDistinct (map (λ c. c.name) cs)) (sym (same t)) all.0, map_All f ts same all.1)

-- A change of every table that keeps names and columns.
pub map-IsValid :
    (f : Table → Table) (ts : List Table)
    → ((t : Table) → (f t).name ≡ t.name)
    → ((t : Table) → (f t).columns ≡ t.columns)
    → IsValid ts
    → IsValid (map f ts)
map-IsValid f ts names columns v =
    (subst IsDistinct (sym (map_names f ts names)) v.0, map_All f ts columns v.1)

pub keep_All :
    (p : Table → Bool) (ts : List Table) → All IsValidTable ts → All IsValidTable (keep p ts)
unfolding keep
keep_All p [] all = tt
keep_All p (t ∷ ts) all = elim (Bool-cases (p t)) [
  | inl h ↦ rw h (all.0, keep_All p ts all.1)
  | inr h ↦ rw h (keep_All p ts all.1)
]
