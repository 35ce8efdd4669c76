-- ===== src/Tasks/Approval.antt =====
-- backend/app/services/task_approval.py: `cascade_approve_subtasks`. `now` is the reading of the
-- clock. The search index is outside the repository's model; its calls follow the list `saved`.
pub mod Marks
pub mod Sweeps
pub mod Effect
use claude_todo.Prelude.{
  ℕ, zero, suc, ◌+◌, String, Bool, true, false, not, ◌&&◌, Option, none, some, List, [], ◌∷◌, ◌++◌,
  map, ◌==◌, string_eq, if◌then◌else◌, length, contains, filter,
}
use claude_todo.Tasks.Model.{Task, human, record_change, touch}
use claude_todo.Tasks.Collection.{Collection, gather_saves, saved_of}

abbrev pub bool_str : Bool → String
bool_str true = "True"
bool_str false = "False"

-- `record_change`, and the two assignments.
unfoldable pub approve : String → ℕ → Task → Task
approve actor now child =
    let logged =
      record_change "approved" (some (bool_str child.approved)) (some "True") actor human now
        child in
    record logged { approved = true; needs_detail = false }

-- The local variables of the walk.
pub record Sweep : Type 0 where
  pub visited : List String
  pub next_layer : List String
  pub mutated : List Task

-- A child that is not in `visited`.
abbrev pub mark : String → ℕ → Task → Sweep → Sweep
mark actor now child w = record {
  visited = child.id ∷ w.visited;
  next_layer = w.next_layer ++ child.id ∷ [];
  mutated = if child.approved then w.mutated else w.mutated ++ approve actor now child ∷ [];
}

abbrev pub visit_child : String → ℕ → Task → Sweep → Sweep
visit_child actor now child w = if contains w.visited child.id then w else mark actor now child w

unfoldable pub visit_children : String → ℕ → List Task → Sweep → Sweep
visit_children actor now [] w = w
visit_children actor now (child ∷ children) w =
    visit_children actor now children (visit_child actor now child w)

-- `{"parent_task_id": {"$in": pending}, "is_deleted": False}`
abbrev pub child_query : List String → Task → Bool
child_query pending t =
    elim t.parent_task_id [ none ↦ false | some p ↦ contains pending p ] && not t.is_deleted

-- An event "tasks.batch_updated" of a project.
pub record BatchUpdated : Type 0 where
  pub project_id : String
  pub task_ids : List String

abbrev pub project_ids : List Task → List String
project_ids [] = []
project_ids (t ∷ ts) =
    let rest = project_ids ts in if contains rest t.project_id then rest else t.project_id ∷ rest

-- One event for each project; a set has no order, and this is one of its orders.
abbrev pub batch_events : List Task → List BatchUpdated
batch_events saved =
    map
      (λ pid. record {
        project_id = pid;
        task_ids = map (λ (t : Task). t.id) (filter (λ t. t.project_id == pid) saved);
      })
      (project_ids saved)

pub record Cascade : Type 0 where
  pub saved : List Task
  pub events : List BatchUpdated

module _ (c : Collection) (actor : String) (now : ℕ) where
  open c use {Store, find}

  -- `while pending`. Every round but the last visits a live task not visited before.
  unfoldable pub sweep : ℕ → Store → List String → Sweep → Sweep
  unfolding visit_children
  sweep zero s pending w = w
  sweep (suc fuel) s [] w = w
  sweep (suc fuel) s (p ∷ ps) w =
      let w' =
        visit_children actor now (find s (child_query (p ∷ ps))) (record w { next_layer = [] }) in
      sweep fuel s w'.next_layer w'

  abbrev pub live_tasks : Store → List Task
  live_tasks s = find s (λ t. not t.is_deleted)

  unfoldable pub sweep_from : Store → String → Sweep
  unfolding sweep
  sweep_from s parent_task_id =
      sweep (length (live_tasks s) + 2) s (parent_task_id ∷ [])
        (record { visited = []; next_layer = []; mutated = [] })

  -- With nothing mutated nothing is written, and the lists are empty.
  unfoldable pub cascade_approve_subtasks : Store → String → Cascade × Store
  unfolding sweep_from gather_saves
  cascade_approve_subtasks s parent_task_id =
      let mutated = (sweep_from s parent_task_id).mutated in
      let (results, s') = gather_saves c now s mutated in
      let saved = saved_of (map (touch now) mutated) results in
      (record { saved = saved; events = batch_events saved }, s')
