-- ===== src/Graph/Document/RoundTrip.antt =====
-- Export, then Import into an empty graph (internal/graph/query.go).
use mathlib.Core.List.{append_assoc, append-nil, Perm}
use native.Mathlib.Numerals.{add-one}
use interactivecodebase.Base.{
  ℕ, suc, max, ◌≤◌, ◌≡◌, ◌≢◌, refl, sym, ap, ◌∙◌, subst, String, string_eq, nat_eq, true, false,
  none, List, [], ◌∷◌, ◌++◌, ok, ◌>>=◌, >>=-eq-ok, arith, contains, keep, any, All, All-map, inl,
  inr, leb, length, length-append,
}
use interactivecodebase.Base.Text.{text_le_total, text_le_trans}
use interactivecodebase.Base.Sort.{
  sort_by, sort_by-perm, sort_by-All, sort_by-IsSorted, sort_by_sorted, IsSorted,
}
use interactivecodebase.Graph.Kinds.{node_kind_valid, edge_kind_valid}
use interactivecodebase.Graph.Model.{Node, Edge, Json, encode_attrs, decode_attrs}
use interactivecodebase.Graph.Store.{
  NodeRow, EdgeRow, Tables, empty_tables, has_node, same_key, last_id, insert_edge, node_row,
  edge_row, add_node, add_edge, run_script,
}
use interactivecodebase.Graph.Store.Integrity.{
  DistinctIds, DistinctKeys, Numbered, HasEnds, IsSound,
}
use interactivecodebase.Graph.Query.{
  scan_all, Scanned, scan_all-eq-ok, scan_node, scan_edge, get_nodes, matches, no_filter, admits,
}
use interactivecodebase.Graph.Document.{
  Document, format_version, add_edges, add_all, export_document, import_document,
}
use interactivecodebase.Graph.Document.Rows.{
  by_id, has_node-sort_by, sort_by-DistinctIds, upsert_new, has_node_middle, any_middle,
}
use interactivecodebase.Graph.Document.Accepted.{
  ids, no_faults, import_document_valid, AllKnown, IsValidNode, IsValidEdge,
}

-- What the table stores for the attributes is what encoding/json writes for what it reads there.
abbrev pub IsCanonical : Json → String → Type 0
IsCanonical j s =
    (a : List (String × String)) × (decode_attrs j s ≡ ok a) × (encode_attrs j a ≡ ok s)

keep_all : (rows : List NodeRow) → keep (matches no_filter) rows ≡ rows
unfolding keep matches admits
keep_all [] = refl
keep_all (r ∷ rows) = ground (arith, keep_all rows)

Numbered-IsSorted :
    (k : ℕ) (edges : List EdgeRow) → Numbered k edges → IsSorted (λ a b. leb a.id b.id) edges
Numbered-IsSorted k [] h = tt
Numbered-IsSorted k (e ∷ edges) h =
    (later (suc k) edges (omega arith) h.1, Numbered-IsSorted (suc k) edges h.1)
  where
    later :
        (m : ℕ) (more : List EdgeRow)
        → e.id ≤ m
        → Numbered m more
        → All (λ f. leb e.id f.id ≡ true) more
    later m [] le h = tt
    later m (f ∷ more) le h = (ground arith, later (suc m) more (omega arith) h.1)

last_id-append :
    (edges : List EdgeRow) (e : EdgeRow) → last_id (edges ++ e ∷ []) ≡ max (last_id edges) e.id
unfolding last_id
last_id-append [] e = omega arith
last_id-append (f ∷ edges) e = omega (arith, last_id-append edges e)

last_id-empty : last_id [] ≡ 0
unfolding last_id
last_id-empty = refl

module _ (j : Json) where
  scan_node-eq-ok :
      (r : NodeRow) (n : Node)
      → IsCanonical j r.attrs
      → scan_node j r ≡ ok n
      → (node_row n r.attrs ≡ r)
        × (encode_attrs j n.attrs ≡ ok r.attrs)
        × (n.id ≡ r.id)
        × (n.kind ≡ r.kind)
  unfolding scan_node
  scan_node-eq-ok r n (a, read, written) h = ground arith

  scan_edge-eq-ok :
      (r : EdgeRow) (e : Edge)
      → IsCanonical j r.attrs
      → scan_edge j r ≡ ok e
      → (record (edge_row e r.attrs) { id = r.id } ≡ r)
        × (encode_attrs j e.attrs ≡ ok r.attrs)
        × (e.from ≡ r.src)
        × (e.to ≡ r.dst)
        × (e.kind ≡ r.kind)
  unfolding scan_edge
  scan_edge-eq-ok r e (a, read, written) h = ground arith

  add_node-new :
      (r : NodeRow) (n : Node) (t : Tables)
      → IsCanonical j r.attrs
      → scan_node j r ≡ ok n
      → r.id ≢ ""
      → node_kind_valid r.kind ≡ true
      → has_node r.id t.nodes ≡ false
      → add_node j n t ≡ ok (record t { nodes = t.nodes ++ r ∷ [] })
  unfolding add_node
  add_node-new r n t c read named known new =
      ground (arith, scan_node-eq-ok r n c read, upsert_new r t.nodes)

  add_edge-new :
      (r : EdgeRow) (e : Edge) (t : Tables)
      → IsCanonical j r.attrs
      → scan_edge j r ≡ ok e
      → edge_kind_valid r.kind ≡ true
      → HasEnds t.nodes r
      → any (same_key r) t.edges ≡ false
      → r.id ≡ suc (last_id t.edges)
      → add_edge j e t ≡ ok (record t { edges = t.edges ++ r ∷ [] })
  unfolding add_edge insert_edge same_key
  add_edge-new r e t c read known ends new numbered = ground (arith, scan_edge-eq-ok r e c read)

  abbrev Canonical : List NodeRow → Type 0
  Canonical = All (λ r. IsCanonical j r.attrs)

  run_nodes :
      (before rows : List NodeRow) (nodes : List Node) (edges : List Edge)
      → Scanned (scan_node j) rows nodes
      → DistinctIds (before ++ rows)
      → All (λ r. r.id ≢ "") rows
      → All (λ r. node_kind_valid r.kind ≡ true) rows
      → Canonical rows
      → run_script j (add_all j nodes edges) (record { nodes = before; edges = [] })
        ≡ run_script j (add_edges j edges) (record { nodes = before ++ rows; edges = [] })
  unfolding add_all run_script
  run_nodes before [] [] edges read d named known c = rw append-nil
  run_nodes before [] (n ∷ nodes) edges read d named known c = absurd read
  run_nodes before (r ∷ rows) [] edges read d named known c = absurd read
  run_nodes before (r ∷ rows) (n ∷ nodes) edges read d named known c =
      let added =
        add_node-new r n (record { nodes = before; edges = [] }) c.0 read.0 named.0 known.0
          (has_node_middle before r rows d) in
      let shifted = append_assoc before (r ∷ []) rows in
      rw (added, run_script)
        (run_nodes (before ++ r ∷ []) rows nodes edges read.1 (subst DistinctIds (sym shifted) d)
            named.1 known.1 c.1
          ∙ ap (λ all. run_script j (add_edges j edges) (record { nodes = all; edges = [] }))
              shifted)

  run_edges :
      (nodes : List NodeRow) (before rows : List EdgeRow) (edges : List Edge)
      → Scanned (scan_edge j) rows edges
      → DistinctKeys (before ++ rows)
      → Numbered (length before) rows
      → last_id before ≡ length before
      → All (HasEnds nodes) rows
      → All (λ e. edge_kind_valid e.kind ≡ true) rows
      → All (λ e. IsCanonical j e.attrs) rows
      → run_script j (add_edges j edges) (record { nodes = nodes; edges = before })
        ≡ (none, record { nodes = nodes; edges = before ++ rows })
  unfolding add_edges run_script
  run_edges nodes before [] [] read d num last ends known c = rw append-nil
  run_edges nodes before [] (e ∷ edges) read d num last ends known c = absurd read
  run_edges nodes before (r ∷ rows) [] read d num last ends known c = absurd read
  run_edges nodes before (r ∷ rows) (e ∷ edges) read d num last ends known c =
      let added =
        add_edge-new r e (record { nodes = nodes; edges = before }) c.0 read.0 known.0 ends.0
          (any_middle before r rows d) (omega arith) in
      let shifted = append_assoc before (r ∷ []) rows in
      let longer = length-append before (r ∷ []) in
      rw (added, run_script)
        (run_edges nodes (before ++ r ∷ []) rows edges read.1 (subst DistinctKeys (sym shifted) d)
            (rw (longer, add-one) num.1) (omega (arith, longer, last_id-append before r)) ends.1
            known.1 c.1
          ∙ ap (λ all. (none, record { nodes = nodes; edges = all })) shifted)

  Scanned-IsValidNode :
      (rows : List NodeRow) (nodes : List Node)
      → Scanned (scan_node j) rows nodes
      → All (λ r. r.id ≢ "") rows
      → All (λ r. node_kind_valid r.kind ≡ true) rows
      → Canonical rows
      → All (IsValidNode j) nodes
  Scanned-IsValidNode [] [] read named known c = tt
  Scanned-IsValidNode [] (n ∷ nodes) read named known c = absurd read
  Scanned-IsValidNode (r ∷ rows) [] read named known c = tt
  Scanned-IsValidNode (r ∷ rows) (n ∷ nodes) read named known c =
      let (_, coded, id_eq, kind_eq) = scan_node-eq-ok r n c.0 read.0 in
      (
        (rw id_eq named.0, rw kind_eq known.0, (r.attrs, coded)),
        Scanned-IsValidNode rows nodes read.1 named.1 known.1 c.1,
      )

  Scanned-IsValidEdge :
      (rows : List EdgeRow) (edges : List Edge)
      → Scanned (scan_edge j) rows edges
      → All (λ e. edge_kind_valid e.kind ≡ true) rows
      → All (λ e. IsCanonical j e.attrs) rows
      → All (IsValidEdge j) edges
  Scanned-IsValidEdge [] [] read known c = tt
  Scanned-IsValidEdge [] (e ∷ edges) read known c = absurd read
  Scanned-IsValidEdge (r ∷ rows) [] read known c = tt
  Scanned-IsValidEdge (r ∷ rows) (e ∷ edges) read known c =
      let (_, coded, _, _, kind_eq) = scan_edge-eq-ok r e c.0 read.0 in
      ((rw kind_eq known.0, (r.attrs, coded)), Scanned-IsValidEdge rows edges read.1 known.1 c.1)

  ids-Scanned :
      (k : String) (rows : List NodeRow) (nodes : List Node)
      → Scanned (scan_node j) rows nodes
      → Canonical rows
      → contains (ids nodes) k ≡ has_node k rows
  unfolding contains has_node any
  ids-Scanned k [] [] read c = refl
  ids-Scanned k [] (n ∷ nodes) read c = absurd read
  ids-Scanned k (r ∷ rows) [] read c = absurd read
  ids-Scanned k (r ∷ rows) (n ∷ nodes) read c =
      ground (arith, ids-Scanned k rows nodes read.1 c.1, scan_node-eq-ok r n c.0 read.0)

  Scanned-AllKnown :
      (nodes : List NodeRow) (listed : List Node) (rows : List EdgeRow) (edges : List Edge)
      → Scanned (scan_node j) nodes listed
      → Canonical nodes
      → Scanned (scan_edge j) rows edges
      → All (λ e. IsCanonical j e.attrs) rows
      → All (HasEnds nodes) rows
      → AllKnown j empty_tables (ids listed) edges
  Scanned-AllKnown nodes listed [] [] from cn read c h = tt
  Scanned-AllKnown nodes listed [] (e ∷ edges) from cn read c h = absurd read
  Scanned-AllKnown nodes listed (r ∷ rows) [] from cn read c h = tt
  Scanned-AllKnown nodes listed (r ∷ rows) (e ∷ edges) from cn read c h =
      let (_, _, src_eq, dst_eq, _) = scan_edge-eq-ok r e c.0 read.0 in
      (
        (
          inl (ids-Scanned e.from nodes listed from cn ∙ rw src_eq h.0.0),
          inl (ids-Scanned e.to nodes listed from cn ∙ rw dst_eq h.0.1),
        ),
        Scanned-AllKnown nodes listed rows edges from cn read.1 c.1 h.1,
      )

  -- Export as two scans of the rows in order.
  export_document-scans :
      (t : Tables)
      → Numbered 0 t.edges
      → export_document j t ≡ (
          scan_all (scan_node j) (sort_by by_id t.nodes) >>= λ nodes.
          scan_all (scan_edge j) t.edges >>= λ edges.
          ok (record { version = format_version; nodes = nodes; edges = edges }))
  unfolding export_document get_nodes
  export_document-scans t numbered = rw (
    keep_all t.nodes,
    sort_by_sorted (λ a b. leb a.id b.id) t.edges (Numbered-IsSorted 0 t.edges numbered),
  )

  export_document-eq-ok :
      (t : Tables) (doc : Document)
      → Numbered 0 t.edges
      → export_document j t ≡ ok doc
      → (doc.version ≡ format_version)
        × Scanned (scan_node j) (sort_by by_id t.nodes) doc.nodes
        × Scanned (scan_edge j) t.edges doc.edges
  export_document-eq-ok t doc numbered h =
      let (nodes, scanned, more) =
        >>=-eq-ok (scan_all (scan_node j) (sort_by by_id t.nodes)) _
          (sym (export_document-scans t numbered) ∙ h) in
      let (edges, walked, e) = >>=-eq-ok (scan_all (scan_edge j) t.edges) _ more in
      let same : (doc.version ≡ format_version) × (doc.nodes ≡ nodes) × (doc.edges ≡ edges) =
        ground arith in
      (
        same.0,
        rw same.1 ((scan_all-eq-ok (scan_node j) (sort_by by_id t.nodes) nodes).0 scanned),
        rw same.2 ((scan_all-eq-ok (scan_edge j) t.edges edges).0 walked),
      )

  -- Import into an empty graph undoes Export: from sound tables whose stored attributes are what
  -- encoding/json writes, importing the exported document reports no error, gives the same nodes
  -- (in the order of their ids) and the same edges under the same ids, and the new graph exports the
  -- same document.
  pub import_document-export_document :
      (t : Tables) (doc : Document)
      → IsSound t
      → All (λ r. IsCanonical j r.attrs) t.nodes
      → All (λ e. IsCanonical j e.attrs) t.edges
      → export_document j t ≡ ok doc
      → (t' : Tables) × (import_document j (no_faults j) (ok doc) empty_tables ≡ ([], t'))
        × Perm t'.nodes t.nodes
        × (t'.edges ≡ t.edges)
        × (export_document j t' ≡ ok doc)
  import_document-export_document t doc s cn ce h =
      let (version, nodes, edges) = export_document-eq-ok t doc s.order h in
      let rows = sort_by by_id t.nodes in
      let named = sort_by-All by_id (λ r. r.id ≢ "") t.nodes s.names in
      let kinds = sort_by-All by_id (λ r. node_kind_valid r.kind ≡ true) t.nodes s.node_kinds in
      let canonical = sort_by-All by_id (λ r. IsCanonical j r.attrs) t.nodes cn in
      let ends : All (HasEnds rows) t.edges =
        All-map (HasEnds t.nodes) (HasEnds rows) t.edges
          (λ e b. (has_node-sort_by e.src t.nodes ∙ b.0, has_node-sort_by e.dst t.nodes ∙ b.1))
          s.ends in
      let accepted =
        import_document_valid j doc empty_tables (inr version)
          (Scanned-IsValidNode rows doc.nodes nodes named kinds canonical)
          (Scanned-IsValidEdge t.edges doc.edges edges s.edge_kinds ce)
          (Scanned-AllKnown rows doc.nodes t.edges doc.edges nodes canonical edges ce ends) in
      let built =
        run_nodes [] rows doc.nodes doc.edges nodes (sort_by-DistinctIds t.nodes s.ids) named kinds
          canonical
        ∙ run_edges rows [] t.edges doc.edges edges s.keys s.order last_id-empty ends s.edge_kinds
            ce in
      let sorted =
        sort_by-IsSorted by_id (λ a b. text_le_total a.id b.id)
          (λ a b c. text_le_trans a.id b.id c.id) t.nodes in
      (
        record { nodes = rows; edges = t.edges },
        accepted ∙ ap (λ r. ([], r.1)) built,
        sort_by-perm by_id t.nodes,
        refl,
        export_document-scans (record { nodes = rows; edges = t.edges }) s.order
            ∙ rw (sort_by_sorted by_id rows sorted) (sym (export_document-scans t s.order) ∙ h),
      )
