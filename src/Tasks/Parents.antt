-- ===== src/Tasks/Parents.antt =====
-- backend/app/services/task_links.py: `has_parent_cycle`, the walk up the chain of parents.
pub mod Chain
use claude_todo.Prelude.{
  ℕ, zero, suc, ◌+◌, String, Bool, ◌&&◌, Option, none, some, List, [], ◌∷◌, ◌++◌, map, reverse,
  ◌==◌, string_eq, if◌then◌else◌, length, contains,
}
use claude_todo.Tasks.Model.{Task}
use claude_todo.Tasks.Collection.{Collection, find_one}
use claude_todo.Tasks.Graph.{live_in}

module _ (c : Collection) (project_id task_id : String) where
  open c use {Store, find}

  -- `{"_id": current, "project_id": project_id, "is_deleted": False}`
  abbrev pub current_query : String → Task → Bool
  current_query current t = live_in project_id t && t.id == current

  -- `doc.get("parent_task_id")`; no document ends the walk as no parent does.
  unfoldable pub next_parent : Store → String → Option String
  next_parent s current = elim (find_one c s (current_query current)) [
    | none ↦ none
    | some doc ↦ doc.parent_task_id
  ]

  -- `while current is not None`. Each round but the last reads a live task not read before.
  unfoldable pub climb : ℕ → Store → String → List String → List String → Option (List String)
  unfolding next_parent
  climb zero s current visited chain = none
  climb (suc fuel) s current visited chain =
      let chain' = chain ++ current ∷ [] in
      let up : Option (List String) = elim (next_parent s current) [
        | none ↦ none
        | some parent ↦ climb fuel s parent (current ∷ visited) chain'
      ] in
      if contains visited current
      then none
      else if current == task_id
      then some (reverse chain')
      else up

  unfoldable pub has_parent_cycle : Store → String → Option (List String)
  unfolding climb
  has_parent_cycle s new_parent_id =
      if task_id == new_parent_id
      then some (task_id ∷ [])
      else climb (length (find s (live_in project_id)) + 1) s new_parent_id [] []
