-- ===== src/Insights/Choice.antt =====
-- The sampler and the loader that the loop over a graph's nodes chooses.
use deedlit_dev.Base.{
  ◌≡◌, refl, Option, none, some, List, [], ◌∷◌, map, arith, if◌then◌else◌, or_option, find, Text,
}
use deedlit_dev.Insights.Graph.{
  Node, is_sampler, is_loader, is_there, scan, model_via, is_named, node_for, model_name,
}

abbrev nodes_in : List (Text × Node) → List Node
nodes_in nodes = map (λ (e : Text × Node). e.1) nodes

scan_lem :
    (nodes : List (Text × Node)) (sampler loader : Option Node)
    → scan nodes sampler loader ≡ (
      or_option sampler (find is_sampler (nodes_in nodes)),
      or_option loader (find is_loader (nodes_in nodes)),
    )
unfolding scan
scan_lem [] none none = refl
scan_lem [] none (some l) = refl
scan_lem [] (some s) none = refl
scan_lem [] (some s) (some l) = refl
scan_lem ((id, node) ∷ nodes) none none = ground (
  arith,
  scan_lem nodes (some node) none,
  scan_lem nodes none (some node),
  scan_lem nodes none none,
)
scan_lem ((id, node) ∷ nodes) none (some l) = ground (arith, scan_lem nodes none (some l))
scan_lem ((id, node) ∷ nodes) (some s) none = ground (arith, scan_lem nodes (some s) none)
scan_lem ((id, node) ∷ nodes) (some s) (some l) = refl

-- The loop that stops early chooses the first sampler and the first loader, each on its own.
pub scan-find :
    (nodes : List (Text × Node))
    → scan nodes none none ≡ (find is_sampler (nodes_in nodes), find is_loader (nodes_in nodes))
scan-find nodes = scan_lem nodes none none

-- The second search for a loader changes nothing: the model is the one that the sampler refers to,
-- or, where that has no name, the one of the first loader of the graph.
pub model_name-scan :
    (reference : Option Text) (nodes : List (Text × Node))
    → let name = model_via (node_for reference nodes) in
      let loader = find is_loader (nodes_in nodes) in
      model_name reference (scan nodes none none).1 nodes
      ≡ (if is_named name then name else (if is_there loader then model_via loader else name))
unfolding model_name
model_name-scan reference nodes = rw (scan-find nodes) (ground arith)
