-- ===== src/Attack/DiGraph.antt =====
-- The directed graph of the crate petgraph, as far as the attack graphs call it. The graph is a
-- parameter: `G` is a graph with nodes of `N` and edges of `E`.
pub mod Listed
use execution_aware_scanner.Prelude.{
  ℕ, zero, suc, ◌≡◌, Bool, ◌&&◌, Option, none, some, List, [], ◌∷◌, ◌++◌, ◌==◌, if◌then◌else◌,
  get_elem?,
}

-- Nodes and edges go by their indices. A node that is added gets the index that comes with the new
-- graph.
pub record DiGraph (N E G : Type 0) : Type 0 where
  pub empty : G
  pub add_node : N → G → G × ℕ
  pub node_weight : ℕ → G → Option N
  pub add_edge : ℕ → ℕ → E → G → G
  pub find_edge : ℕ → ℕ → G → Option ℕ
  pub edge_weight : ℕ → G → Option E
  -- a write through `edge_weight_mut`
  pub set_weight : ℕ → E → G → G
  -- `edges` and `edges_directed(Incoming)`: the other end and the weight of each
  pub edges : ℕ → G → List (ℕ × E)
  pub incoming : ℕ → G → List (ℕ × E)
  pub node_indices : G → List ℕ
  -- source, target and weight of each edge in the order of the edges' indices
  pub edge_references : G → List (ℕ × ℕ × E)

module _ {E : Type 0} where
  -- The weight of the edge with that index is replaced.
  abbrev pub reweigh : List (ℕ × ℕ × E) → ℕ → E → List (ℕ × ℕ × E)
  reweigh [] i e = []
  reweigh ((a, b, _) ∷ es) zero e = (a, b, e) ∷ es
  reweigh (x ∷ es) (suc i) e = x ∷ reweigh es i e

-- What petgraph documents: a new node has an index of its own, adding an edge leaves the nodes as they
-- are and puts the edge behind the others, and an edge that is found joins the nodes asked for.
pub record IsDiGraph (N E G : Type 0) ⦃g : DiGraph N E G⦄ : Type 0 where
  pub node_weight-empty : (i : ℕ) → g.node_weight i g.empty ≡ none
  pub fresh : (n : N) (x : G) → g.node_weight (g.add_node n x).1 x ≡ none
  pub node_weight-add_node :
      (n : N) (x : G) (i : ℕ)
      → g.node_weight i (g.add_node n x).0
        ≡ (if i == (g.add_node n x).1 then some n else g.node_weight i x)
  pub node_weight-add_edge :
      (a b : ℕ) (e : E) (x : G) (i : ℕ) → g.node_weight i (g.add_edge a b e x) ≡ g.node_weight i x
  pub node_weight-set_weight :
      (j : ℕ) (e : E) (x : G) (i : ℕ) → g.node_weight i (g.set_weight j e x) ≡ g.node_weight i x
  pub edge_references-empty : g.edge_references g.empty ≡ []
  pub edge_references-add_node :
      (n : N) (x : G) → g.edge_references (g.add_node n x).0 ≡ g.edge_references x
  pub edge_references-add_edge :
      (a b : ℕ) (e : E) (x : G)
      → g.edge_references (g.add_edge a b e x) ≡ g.edge_references x ++ (a, b, e) ∷ []
  pub edge_references-set_weight :
      (j : ℕ) (e : E) (x : G)
      → g.edge_references (g.set_weight j e x) ≡ reweigh (g.edge_references x) j e
  pub find_edge_sound :
      (a b : ℕ) (x : G) (j : ℕ) (e : E)
      → g.find_edge a b x ≡ some j
      → g.edge_weight j x ≡ some e
      → get_elem? (g.edge_references x) j ≡ some (a, b, e)
