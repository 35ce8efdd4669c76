-- ===== src/Tools/Examples.antt =====
-- A task that blocks another, the tools at it, and the theorems.
use claude_todo.Prelude.{
  String, List, length, ◌≡◌, ◌↔◌, refl, Bool, true, false, Option, none, some, [], ◌∷◌, contains,
  string_eq,
}
use claude_todo.Tasks.Graph.{HasParent, IsAcyclic}
use claude_todo.Tasks.Memory.{Documents, memory, fetch, put}
use claude_todo.Tasks.Link.{cleanup_dependents, list_dependents}
use claude_todo.Tasks.Examples.{task, three, blocked, freed}
use claude_todo.Tools.{answer, error, blocks_dependents, check_task, delete_task}
use claude_todo.Tasks.Model.Timed.{IsTimed}
use claude_todo.Tasks.Memory.{fetch-All}
use claude_todo.Tools.Status.{complete_task, reopen_task}
use claude_todo.Tools.Status.Times.{AllTimed, status_tools-AllTimed}
use claude_todo.Tools.Status.{str_length}
use claude_todo.Tools.Bulk.{
  BatchItem, BulkReply, prepare, run_jobs, cascades, bulk_complete_tasks, bulk_archive_tasks,
  batch_update_tasks,
}
use claude_todo.Tools.Bulk.Reported.{bulk_tools-AllSettled}
use claude_todo.Tools.Bulk.Tally.{id_of_item, Reports, bulk_tools-Reports}
use claude_todo.Tools.Create.{NewTask, new_document, created, create_task}
use claude_todo.Tools.Create.Untimed.{create_task-IsSettled}
use claude_todo.Tools.Update.{Changes, update_task}
use claude_todo.Tools.Update.Kept.{
  IsSettled, AllSettled, update_task-AllSettled, update_task-IsAcyclic,
}
use claude_todo.Tasks.Model.{Task, TaskStatus, TaskPriority, TaskType, is_done, transition_status}
use claude_todo.Tasks.Parents.{has_parent_cycle}
use claude_todo.Tasks.Approval.{cascade_approve_subtasks, sweep_from, sweep, visit_children}
use claude_todo.Tasks.Collection.{gather_saves}
use claude_todo.Tools.Delete.{delete_task_clears}

abbrev anyone : String → Bool
anyone project_id = true

abbrev never : String → Bool
never project_id = false

unforced :
    (delete_task (memory []) anyone never 7 "u" "a" false blocked).0
    ≡ error (blocks_dependents ("b" ∷ []))
unfolding delete_task list_dependents fetch
unforced = refl

forced : (delete_task (memory []) anyone never 7 "u" "a" true blocked).0 ≡ answer (freed ∷ [])
unfolding delete_task list_dependents cleanup_dependents fetch put
forced = refl

forced_b :
    (memory []).get (delete_task (memory []) anyone never 7 "u" "a" true blocked).1 "b" ≡ some freed
unfolding delete_task list_dependents cleanup_dependents fetch put
forced_b = refl

a_checked : check_task (memory []) anyone never blocked "a" ≡ answer (task "a" [] [])
unfolding fetch
a_checked = refl

delete_task_clears_example : contains freed.blocked_by "a" ≡ false
delete_task_clears_example =
    delete_task_clears (memory []) anyone never 7 "u" "a" true blocked (task "a" [] []) (freed ∷ [])
      "b" freed a_checked forced forced_b refl

three-AllTimed : AllTimed (memory []) three
three-AllTimed = record {
  at = λ i t stored. fetch-All IsTimed i t three.items (refl, (refl, (refl, tt))) stored;
}

status_tools-AllTimed_example :
    AllTimed
      (memory [])
      (complete_task (memory []) anyone never 7 "mcp" "a" (some "finished") three).1
    × AllTimed (memory []) (reopen_task (memory []) anyone never 7 "mcp" "a" three).1
status_tools-AllTimed_example =
    status_tools-AllTimed (memory []) anyone never 7 "mcp" "a" (some "finished") three
      three-AllTimed

abbrev no_changes : Changes
no_changes = record {
  title = none;
  description = none;
  priority = none;
  status = none;
  task_type = none;
  decision_context = none;
  due_date = none;
  assignee_id = none;
  decider_id = none;
  parent_task_id = none;
  tags = none;
  completion_report = none;
  needs_detail = none;
  approved = none;
  active_form = none;
}

-- Task `a` is done, approved and put under `b`.
abbrev moves : Changes
moves = record no_changes { status = some "done"; parent_task_id = some "b"; approved = some true }

abbrev after_moves : Documents
after_moves =
    (update_task (memory []) anyone never anyone anyone (λ date. none) 7 "mcp" "a" moves three).1

abbrev parent_in : Documents → Option String
parent_in s = elim ((memory []).get s "a") [ none ↦ none | some t ↦ t.parent_task_id ]

moved_stored : parent_in after_moves ≡ some "b"
unfolding update_task str_length transition_status has_parent_cycle cascade_approve_subtasks
    sweep_from sweep visit_children gather_saves fetch put
moved_stored = refl

no_parents : (i : String) (t : Task) → (memory []).get three i ≡ some t → t.parent_task_id ≡ none
no_parents i t stored =
    fetch-All (λ (z : Task). z.parent_task_id ≡ none) i t three.items (refl, (refl, (refl, tt)))
      stored

three-IsAcyclic : IsAcyclic (HasParent (memory []) three "p")
three-IsAcyclic a (m, r, e) = cc (no_parents m e.task e.stored, e.parent)

three-AllSettled : AllSettled (memory []) three
three-AllSettled = record {
  at = λ i t stored.
      fetch-All IsSettled i t three.items
        (
          record { timed = refl; decided = refl },
          (record { timed = refl; decided = refl }, (record { timed = refl; decided = refl }, tt)),
        )
        stored;
}

update_task-IsAcyclic_example : IsAcyclic (HasParent (memory []) after_moves "p")
update_task-IsAcyclic_example =
    update_task-IsAcyclic (memory []) anyone never anyone anyone (λ date. none) 7 "mcp" "a" "p"
      moves three three-IsAcyclic

update_task-AllSettled_example : AllSettled (memory []) after_moves
update_task-AllSettled_example =
    update_task-AllSettled (memory []) anyone never anyone anyone (λ date. none) 7 "mcp" "a" moves
      three three-AllSettled

abbrev item : Changes → BatchItem
item changes = record {
  task_id = some "a";
  changes = changes;
  sort_order = none;
  archived = none;
  other_fields = [];
}

abbrev batch : List BatchItem
batch =
    item (record no_changes { description = some "first" })
    ∷ item (record no_changes { status = some "done" })
    ∷ record (item no_changes) { task_id = none }
    ∷ []

abbrev after_batch : BulkReply × Documents
after_batch = batch_update_tasks (memory []) anyone never (λ date. none) 7 "mcp" batch three

abbrev description_in : Documents → String
description_in s = elim ((memory []).get s "a") [ none ↦ "" | some t ↦ t.description ]

-- Both items are reported as saved, and the description of the first is lost.
lost_description : (length after_batch.0.saved ≡ 2) × (description_in after_batch.1 ≡ "")
unfolding run_jobs prepare cascades transition_status cascade_approve_subtasks gather_saves fetch
    put
lost_description = (refl, refl)

bulk_tools-Reports_example :
    Reports
      (λ task_id. some task_id)
      ("a" ∷ "x" ∷ [])
      (bulk_complete_tasks (memory []) anyone never 7 ("a" ∷ "x" ∷ []) none three).0
    × Reports
        (λ task_id. some task_id)
        ("a" ∷ "x" ∷ [])
        (bulk_archive_tasks (memory []) anyone never 7 ("a" ∷ "x" ∷ []) three).0
    × Reports id_of_item batch after_batch.0
bulk_tools-Reports_example =
    bulk_tools-Reports (memory []) anyone never (λ date. none) 7 "mcp" ("a" ∷ "x" ∷ []) none batch
      three

bulk_tools-AllSettled_example :
    AllSettled
      (memory [])
      (bulk_complete_tasks (memory []) anyone never 7 ("a" ∷ "b" ∷ []) none three).1
    × AllSettled
        (memory [])
        (bulk_archive_tasks (memory []) anyone never 7 ("a" ∷ "b" ∷ []) three).1
    × AllSettled (memory []) after_batch.1
bulk_tools-AllSettled_example =
    bulk_tools-AllSettled (memory []) anyone never (λ date. none) 7 "mcp" ("a" ∷ "b" ∷ []) none
      batch three three-AllSettled

abbrev done_at_once : NewTask
done_at_once = record {
  title = "Release notes";
  description = "";
  priority = "medium";
  status = "done";
  task_type = "action";
  decision_context = none;
  due_date = none;
  assignee_id = none;
  decider_id = none;
  parent_task_id = none;
  tags = none;
}

abbrev untimed : Task
untimed =
    new_document 7 "z" "p" "mcp" done_at_once none TaskPriority.medium TaskStatus.done
      TaskType.action

made_done :
    (create_task
      (memory [])
      anyone
      never
      anyone
      anyone
      (λ date. none)
      (λ name. some "p")
      7
      "z"
      "mcp"
      "Project"
      done_at_once
      three).0
    ≡ created untimed
unfolding create_task str_length fetch put
made_done = refl

create_task-IsSettled_example : IsSettled untimed ↔ (is_done TaskStatus.done ≡ false)
create_task-IsSettled_example =
    create_task-IsSettled (memory []) anyone never anyone anyone (λ date. none) (λ name. some "p") 7
      "z" "mcp" "Project" done_at_once three untimed made_done
