-- ===== src/Attack/DiGraph/Listed.antt =====
-- A graph that meets the laws: the list of its nodes and the list of its edges.
use execution_aware_scanner.Prelude.{
  ℕ, zero, suc, ◌+◌, ◌≡◌, refl, ◌&&◌, Option, none, some, List, [], ◌∷◌, ◌++◌, arith, ◌==◌,
  if◌then◌else◌, length, ◌≤◌, get_elem?, get_elem?-append_one, get_elem?-length,
}
use execution_aware_scanner.Attack.DiGraph.{DiGraph, IsDiGraph, reweigh}

pub record Listed (N E : Type 0) : Type 0 where
  pub nodes : List N
  pub links : List (ℕ × ℕ × E)

abbrev count_up : ℕ → ℕ → List ℕ
count_up zero i = []
count_up (suc n) i = i ∷ count_up n (suc i)

module _ {E : Type 0} where
  abbrev find_link : ℕ → ℕ → ℕ → List (ℕ × ℕ × E) → Option ℕ
  find_link i a b [] = none
  find_link i a b ((a', b', _) ∷ es) =
      let rest = find_link (suc i) a b es in if a == a' && b == b' then some i else rest

  abbrev weight_at : ℕ → List (ℕ × ℕ × E) → Option E
  weight_at i [] = none
  weight_at zero ((_, _, e) ∷ es) = some e
  weight_at (suc i) (_ ∷ es) = weight_at i es

  abbrev leaving : ℕ → List (ℕ × ℕ × E) → List (ℕ × E)
  leaving a [] = []
  leaving a ((a', b, e) ∷ es) =
      let rest = leaving a es in if a == a' then rest ++ (b, e) ∷ [] else rest

  abbrev arriving : ℕ → List (ℕ × ℕ × E) → List (ℕ × E)
  arriving b [] = []
  arriving b ((a, b', e) ∷ es) =
      let rest = arriving b es in if b == b' then rest ++ (a, e) ∷ [] else rest

  find_link_bound :
      (n a b : ℕ) (es : List (ℕ × ℕ × E)) (i : ℕ) → find_link n a b es ≡ some i → n ≤ i
  find_link_bound n a b [] i h = cc
  find_link_bound n a b ((a', b', e) ∷ es) i h = ground (arith, find_link_bound (suc n) a b es i)

  find_link_sound :
      (n a b : ℕ) (es : List (ℕ × ℕ × E)) (j : ℕ) (e : E)
      → find_link n a b es ≡ some (n + j)
      → weight_at j es ≡ some e
      → get_elem? es j ≡ some (a, b, e)
  find_link_sound n a b [] j e h w = cc
  find_link_sound n a b ((a', b', e') ∷ es) zero e h w =
      ground (arith, find_link_bound (suc n) a b es n)
  find_link_sound n a b ((a', b', e') ∷ es) (suc j) e h w =
      ground (arith, find_link_sound (suc n) a b es j e)

abbrev add_listed : {N E : Type 0} → N → Listed N E → Listed N E × ℕ
add_listed n x = (record x { nodes = x.nodes ++ n ∷ [] }, length x.nodes)

instance abbrev pub listed_graph : {N E : Type 0} → DiGraph N E (Listed N E)
listed_graph = record {
  empty = record { nodes = []; links = [] };
  add_node = add_listed;
  node_weight = λ i x. get_elem? x.nodes i;
  add_edge = λ a b e x. record x { links = x.links ++ (a, b, e) ∷ [] };
  find_edge = λ a b x. find_link 0 a b x.links;
  edge_weight = λ i x. weight_at i x.links;
  set_weight = λ i e x. record x { links = reweigh x.links i e };
  edges = λ a x. leaving a x.links;
  incoming = λ b x. arriving b x.links;
  node_indices = λ x. count_up (length x.nodes) 0;
  edge_references = λ x. x.links;
}

pub listed-IsDiGraph : {N E : Type 0} → IsDiGraph N E (Listed N E)
listed-IsDiGraph = record {
  node_weight-empty = λ i. refl;
  fresh = λ n x. get_elem?-length x.nodes;
  node_weight-add_node = λ n x i. get_elem?-append_one x.nodes n i;
  node_weight-add_edge = λ a b e x i. refl;
  node_weight-set_weight = λ j e x i. refl;
  edge_references-empty = refl;
  edge_references-add_node = λ n x. refl;
  edge_references-add_edge = λ a b e x. refl;
  edge_references-set_weight = λ j e x. refl;
  find_edge_sound = λ a b x j e h w. find_link_sound 0 a b x.links j e (ground arith) w;
}
