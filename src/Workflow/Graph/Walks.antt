-- ===== src/Workflow/Graph/Walks.antt =====
-- Walks along the adjacency of internal/workflow/flow.go.
use tspack.Base.{String, Memᴰ}
use tspack.Workflow.Graph.{Adjacency, targets_of}

-- From one name to another along the targets.
pub data Walk (adjacency : Adjacency) : String → String → Type 0 where
  here : {v : String} → Walk adjacency v v
  step :
      {u v w : String} → Memᴰ v (targets_of adjacency u) → Walk adjacency v w → Walk adjacency u w
