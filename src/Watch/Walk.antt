-- ===== src/Watch/Walk.antt =====
-- The snapshot of a directory (internal/watch/watch.go, snapshot). A directory that cannot be read is one
-- without entries, a file whose state cannot be read is one without a state, as the walk treats them.
use interactivecodebase.Base.{
  String, ◌<>◌, ◌==◌, string_eq, Bool, true, false, not, Option, none, some, [], ◌∷◌, ◌++◌, In,
  In-append, ◌≡◌, refl, subst, sym, ◌↔◌, ◌⊎◌, inl, inr, keep, if◌then◌else◌,
}
use interactivecodebase.Watch.{FileState, Snapshot, relevant, skip_dir}

-- The entries of a directory, one after the other.
pub data Tree : Type 0 where
  end : Tree
  file : String → Option FileState → Tree → Tree
  folder : String → Tree → Tree → Tree

abbrev pub join : String → String → String
join rel name = if rel == "" then name else rel <> ("/" <> name)

abbrev pub path_in : String → String → String → String
path_in root rel name = root <> ("/" <> join rel name)

abbrev found : String → Option FileState → Snapshot
found path none = []
found path (some s) = (path, s) ∷ []

unfoldable pub walk : String → String → String → Tree → Snapshot
walk lang root rel end = []
walk lang root rel (file name s more) =
    let rest = walk lang root rel more in
    (if relevant lang name then found (path_in root rel name) s else []) ++ rest
walk lang root rel (folder name inside more) =
    let below = walk lang root (join rel name) inside in
    let rest = walk lang root rel more in
    (if skip_dir lang (join rel name) then [] else below) ++ rest

abbrev pub git_head : String → String
git_head root = root <> "/.git/HEAD"

unfoldable pub put_state : String → Option FileState → Snapshot → Snapshot
put_state path none out = out
put_state path (some s) out = (path, s) ∷ keep (λ f. not (f.0 == path)) out

-- `snapshot`, with the state of `.git/HEAD`.
unfoldable pub snapshot : String → String → Tree → Option FileState → Snapshot
snapshot lang root tree head = put_state (git_head root) head (walk lang root "" tree)

-- A file that is watched: it matters for the language, and lies in no directory that is left out.
pub data Watched (lang root : String) : String → Tree → String → FileState → Type 0 where
  here :
      (rel name : String) (s : FileState) (more : Tree)
      → relevant lang name ≡ true
      → Watched lang root rel (file name (some s) more) (path_in root rel name) s
  below :
      (rel name path : String) (s : FileState) (inside more : Tree)
      → skip_dir lang (join rel name) ≡ false
      → Watched lang root (join rel name) inside path s
      → Watched lang root rel (folder name inside more) path s
  after_file :
      (rel name path : String) (o : Option FileState) (s : FileState) (more : Tree)
      → Watched lang root rel more path s
      → Watched lang root rel (file name o more) path s
  after_folder :
      (rel name path : String) (s : FileState) (inside more : Tree)
      → Watched lang root rel more path s
      → Watched lang root rel (folder name inside more) path s

module _ (lang root : String) where
  walk-Watched :
      (rel : String) (t : Tree) (path : String) (s : FileState)
      → In (path, s) (walk lang root rel t)
      → Watched lang root rel t path s
  unfolding walk
  walk-Watched rel end path s m = absurd m
  walk-Watched rel (file name o more) path s m =
      by_parts (walk-Watched rel more path s) (relevant lang name) refl o (
        (In-append (path, s) (if relevant lang name then found (path_in root rel name) o else [])
            (walk lang root rel more)).0
          m)
    where
      by_parts :
          (In (path, s) (walk lang root rel more) → Watched lang root rel more path s)
          → (b : Bool) → relevant lang name ≡ b
          → (p : Option FileState)
          → (In (path, s) (if b then found (path_in root rel name) p else [])
              ⊎ In (path, s) (walk lang root rel more))
          → Watched lang root rel (file name p more) path s
      by_parts rest b h p (inr later) = after_file rel name path p s more (rest later)
      by_parts rest false h p (inl there) = absurd there
      by_parts rest true h none (inl there) = absurd there
      by_parts rest true h (some r) (inl (inr there)) = absurd there
      by_parts rest true h (some r) (inl (inl same)) =
          subst (λ q. Watched lang root rel (file name (some r) more) q.0 q.1) (sym same)
            (here rel name r more h)
  walk-Watched rel (folder name inside more) path s m =
      by_parts (walk-Watched rel more path s) (walk-Watched (join rel name) inside path s)
        (skip_dir lang (join rel name)) refl
        ((In-append (path, s)
            (if skip_dir lang (join rel name) then [] else walk lang root (join rel name) inside)
            (walk lang root rel more)).0
          m)
    where
      by_parts :
          (In (path, s) (walk lang root rel more) → Watched lang root rel more path s)
          → (In (path, s) (walk lang root (join rel name) inside)
              → Watched lang root (join rel name) inside path s)
          → (b : Bool) → skip_dir lang (join rel name) ≡ b
          → (In (path, s) (if b then [] else walk lang root (join rel name) inside)
              ⊎ In (path, s) (walk lang root rel more))
          → Watched lang root rel (folder name inside more) path s
      by_parts rest deeper b h (inr later) = after_folder rel name path s inside more (rest later)
      by_parts rest deeper true h (inl there) = absurd there
      by_parts rest deeper false h (inl there) = below rel name path s inside more h (deeper there)

  Watched-walk :
      (rel : String) (t : Tree) (path : String) (s : FileState)
      → Watched lang root rel t path s
      → In (path, s) (walk lang root rel t)
  unfolding walk
  Watched-walk _ _ _ _ (here rel name s more h) =
      (In-append (path_in root rel name, s)
          (if relevant lang name then (path_in root rel name, s) ∷ [] else [])
          (walk lang root rel more)).1
        (inl (rw h (inl refl)))
  Watched-walk _ _ _ _ (below rel name path s inside more h w) =
      (In-append (path, s)
          (if skip_dir lang (join rel name) then [] else walk lang root (join rel name) inside)
          (walk lang root rel more)).1
        (inl (rw h (Watched-walk (join rel name) inside path s w)))
  Watched-walk _ _ _ _ (after_file rel name path o s more w) =
      (In-append (path, s) (if relevant lang name then found (path_in root rel name) o else [])
          (walk lang root rel more)).1
        (inr (Watched-walk rel more path s w))
  Watched-walk _ _ _ _ (after_folder rel name path s inside more w) =
      (In-append (path, s)
          (if skip_dir lang (join rel name) then [] else walk lang root (join rel name) inside)
          (walk lang root rel more)).1
        (inr (Watched-walk rel more path s w))

  -- The walk of a directory finds the files that are watched, and no other.
  pub walk_iff :
      (t : Tree) (path : String) (s : FileState)
      → In (path, s) (walk lang root "" t) ↔ Watched lang root "" t path s
  walk_iff t path s = (walk-Watched "" t path s, Watched-walk "" t path s)
