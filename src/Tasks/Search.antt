-- ===== src/Tasks/Search.antt =====
-- backend/app/services/task_links.py: `has_cycle`, a breadth-first search of the `blocks` graph. Ids are texts in the form that `str` prints, for which `_as_object_id` and
-- `str` undo one another. Tasks fetched twice are one document at two moments; the calls of other
-- workers between two awaits are not modelled.
pub mod Trail
pub mod Scanning
pub mod Layers
use claude_todo.Prelude.{
  ℕ, zero, suc, ◌+◌, String, Bool, ◌&&◌, Option, none, some, List, [], ◌∷◌, ◌++◌, reverse, ◌==◌,
  string_eq, if◌then◌else◌, length, contains,
}
use claude_todo.Tasks.Model.{Task}
use claude_todo.Tasks.Collection.{Collection}
use claude_todo.Tasks.Graph.{live_in}

-- A dictionary whose keys are new when they are put in.
abbrev pub lookup : String → List (String × String) → Option String
lookup k [] = none
lookup k ((j, v) ∷ m) = if j == k then some v else lookup k m

-- The local variables of `has_cycle` while a layer is read.
pub record Search : Type 0 where
  pub visited : List String
  pub predecessor : List (String × String)
  pub next_frontier : List String

pub data Scan : Type 0 where
  cycle : List String → Scan
  going : Search → Scan

-- `while cur in predecessor`. An id is reached once, so there are fewer rounds than entries.
unfoldable pub walk_back : ℕ → List (String × String) → String → List String → List String
walk_back zero predecessor cur path = path
walk_back (suc fuel) predecessor cur path = elim (lookup cur predecessor) [
  | none ↦ path
  | some c ↦ walk_back fuel predecessor c (path ++ c ∷ [])
]

-- The path [target, ..., current, source].
unfoldable pub cycle_path : String → String → List (String × String) → List String
unfolding walk_back
cycle_path source_id current_id predecessor =
    reverse (walk_back (length predecessor) predecessor current_id (source_id ∷ current_id ∷ []))

-- `visited.add`, the entry of `predecessor` and the `append` for a new neighbour.
abbrev pub enqueue : String → String → Search → Search
enqueue current_id neighbor_id st = record {
  visited = neighbor_id ∷ st.visited;
  predecessor = (neighbor_id, current_id) ∷ st.predecessor;
  next_frontier = st.next_frontier ++ neighbor_id ∷ [];
}

abbrev pub reach_id : String → String → Search → Search
reach_id current_id neighbor_id st =
    if contains st.visited neighbor_id then st else enqueue current_id neighbor_id st

-- The loop over `doc["blocks"]`.
unfoldable pub scan_blocks : String → String → List String → Search → Scan
scan_blocks source_id current_id [] st = going st
scan_blocks source_id current_id (neighbor_id ∷ rest) st =
    let on = scan_blocks source_id current_id rest (reach_id current_id neighbor_id st) in
    if neighbor_id == source_id then cycle (cycle_path source_id current_id st.predecessor) else on

-- The loop over the documents of a layer.
unfoldable pub scan_docs : String → List Task → Search → Scan
unfolding scan_blocks
scan_docs source_id [] st = going st
scan_docs source_id (doc ∷ docs) st = elim (scan_blocks source_id doc.id doc.blocks st) [
  | cycle path ↦ cycle path
  | going st' ↦ scan_docs source_id docs st'
]

abbrev pub targets : List Task → List String
targets [] = []
targets (t ∷ ts) = t.blocks ++ targets ts

module _ (c : Collection) where
  open c use {Store, find}

  abbrev pub layer_query : String → List String → Task → Bool
  layer_query project_id frontier t = live_in project_id t && contains frontier t.id

  -- `while frontier`: every round but the last reaches a new id that some task blocks.
  unfoldable pub search_layers :
      ℕ → Store → String → String → List String → Search → Option (List String)
  unfolding scan_docs
  search_layers zero s project_id source_id frontier st = none
  search_layers (suc fuel) s project_id source_id [] st = none
  search_layers (suc fuel) s project_id source_id (f ∷ fs) st =
      elim (scan_docs source_id (find s (layer_query project_id (f ∷ fs)))
        (record st { next_frontier = [] })) [
          | cycle path ↦ some path
          | going st' ↦ search_layers fuel s project_id source_id st'.next_frontier st'
        ]

  abbrev pub edge_targets : Store → String → List String
  edge_targets s project_id = targets (find s (live_in project_id))

  unfoldable pub has_cycle : Store → String → String → String → Option (List String)
  unfolding search_layers
  has_cycle s project_id source_id target_id =
      if source_id == target_id
      then some (source_id ∷ [])
      else search_layers (length (edge_targets s project_id) + 2) s project_id source_id
          (target_id ∷ [])
          (record { visited = target_id ∷ []; predecessor = []; next_frontier = [] })
