-- ===== src/Graph/Reader.antt =====
-- What the views need of the graph: Node, Nodes and Neighbors (internal/graph/query.go), as an interface.
use interactivecodebase.Base.{String, List, Result}
use interactivecodebase.Graph.Kinds.{NodeKind, EdgeKind}
use interactivecodebase.Graph.Model.{Node, GraphError, Json}
use interactivecodebase.Graph.Store.{Tables}
use interactivecodebase.Graph.Query.{Direction, Neighbor, get_node, get_nodes, neighbors}

pub record Reader : Type 0 where
  pub node : String → Result GraphError Node
  pub nodes : List NodeKind → Result GraphError (List Node)
  pub adjacent : String → Direction → List EdgeKind → Result GraphError (List Neighbor)

-- The graph itself.
abbrev pub reader : Json → Tables → Reader
reader j t = record {
  node = λ id. get_node j id t;
  nodes = λ kinds. get_nodes j (record { kinds = kinds; package_path = "" }) t;
  adjacent = λ id dir kinds. neighbors j id dir kinds t;
}
