-- ===== src/Tools.antt =====
-- backend/app/mcp/tools/tasks.py: `delete_task`, `link_tasks` and `unlink_tasks`, which AI agents
-- call. Whether the caller may use a project, and whether a project is locked, are arguments. A tool
-- returns its answer or its error, the collection that it leaves and the events that it publishes;
-- publishing does not fail. The search index is not modelled.
pub mod Delete
pub mod Status
pub mod Update
pub mod Bulk
pub mod Create
pub mod Examples
use claude_todo.Prelude.{
  ℕ, String, Bool, true, false, not, Option, none, some, List, [], ◌∷◌, ◌++◌, map, ◌==◌, string_eq,
  if◌then◌else◌,
}
use claude_todo.Tasks.Model.{Task, touch}
use claude_todo.Tasks.Collection.{Collection, ids}
use claude_todo.Tasks.Link.{
  Failure, save_raised, Result, ok, err, link, unlink, list_dependents, cleanup_dependents,
}

pub data ToolError : Type 0 where
  unsupported task_not_found no_access project_locked : ToolError
  blocks_dependents : List String → ToolError
  link_error : Failure → ToolError

pub data Event : Type 0 where
  task_deleted : String → String → Event
  task_updated : String → Task → Event
  task_linked task_unlinked : String → String → String → Event

pub data Answer (A : Type 0) : Type 0 where
  answer : A → Answer A
  error : ToolError → Answer A

abbrev pub updates : String → List Task → List Event
updates project_id tasks = map (λ t. task_updated project_id t) tasks

module _ (c : Collection) (may locked : String → Bool) where
  open c use {Store, get, save}

  -- `_get_task_or_raise`
  abbrev pub get_task_or_raise : Store → String → Answer Task
  get_task_or_raise s task_id = elim (get s task_id) [
    | none ↦ error task_not_found
    | some task ↦
        if task.is_deleted
        then error task_not_found
        else if not (may task.project_id)
        then error no_access
        else answer task
  ]

  abbrev pub check_task : Store → String → Answer Task
  check_task s task_id = elim (get_task_or_raise s task_id) [
    | error e ↦ error e
    | answer task ↦ if locked task.project_id then error project_locked else answer task
  ]

  -- The flag, the write and the events.
  abbrev pub finish :
      ℕ → String → Task → List Task → Store → Answer (List Task) × Store × List Event
  finish now task_id task cleaned s =
      let (done, s') = save s (touch now (record task { is_deleted = true })) in
      (
        if done then answer cleaned else error (link_error save_raised),
        s',
        if done then task_deleted task.project_id task_id ∷ updates task.project_id cleaned else [],
      )

  abbrev pub after_cleanup :
      ℕ → String → Task → Result (List Task) × Store → Answer (List Task) × Store × List Event
  after_cleanup now task_id task (err e, s) = (error (link_error e), s, [])
  after_cleanup now task_id task (ok cleaned, s) = finish now task_id task cleaned s

  -- The last but one argument is the list of dependents.
  abbrev pub delete_with :
      ℕ
      → String
      → String
      → Bool
      → Task
      → List Task
      → Store
      → Answer (List Task) × Store × List Event
  delete_with now actor task_id force task [] s = finish now task_id task [] s
  delete_with now actor task_id force task (d ∷ ds) s =
      let forced =
        after_cleanup now task_id task (cleanup_dependents c now task_id task.project_id actor s) in
      if force then forced else (error (blocks_dependents (ids (d ∷ ds))), s, [])

  abbrev pub delete_checked :
      ℕ → String → String → Bool → Answer Task → Store → Answer (List Task) × Store × List Event
  delete_checked now actor task_id force (error e) s = (error e, s, [])
  delete_checked now actor task_id force (answer task) s =
      delete_with now actor task_id force task (list_dependents c task.project_id task_id s) s

  unfoldable pub delete_task :
      ℕ → String → String → Bool → Store → Answer (List Task) × Store × List Event
  delete_task now actor task_id force s =
      delete_checked now actor task_id force (check_task s task_id) s

  -- The answer of `link` or `unlink` as that of the tool, with the events.
  abbrev pub answer_of :
      String → Event → Result (Task × Task) × Store → Answer (Task × Task) × Store × List Event
  answer_of project_id event (err e, s) = (error (link_error e), s, [])
  answer_of project_id event (ok (source, target), s) =
      (answer (source, target), s, event ∷ updates project_id (source ∷ target ∷ []))

  -- The service is called once the checks have passed.
  abbrev pub answer_checked :
      Event
      → Result (Task × Task) × Store
      → Answer Task
      → Store
      → Answer (Task × Task) × Store × List Event
  answer_checked event called (error e) s = (error e, s, [])
  answer_checked event called (answer source) s = answer_of source.project_id event called

  -- Both ends are checked for access, and the project of the source for a lock.
  abbrev pub check_ends : Store → String → String → String → Answer Task
  check_ends s relation source_id target_id =
      let checked : Answer Task = elim (get_task_or_raise s source_id) [
        | error e ↦ error e
        | answer source ↦ elim (get_task_or_raise s target_id) [
          | error e ↦ error e
          | answer target ↦ if locked source.project_id then error project_locked else answer source
        ]
      ] in
      if not (relation == "blocks") then error unsupported else checked

  unfoldable pub link_tasks :
      ℕ → String → String → String → String → Store → Answer (Task × Task) × Store × List Event
  link_tasks now actor relation source_id target_id s =
      answer_checked (task_linked source_id target_id relation)
        (link c now actor relation source_id target_id s)
        (check_ends s relation source_id target_id) s

  unfoldable pub unlink_tasks :
      ℕ → String → String → String → String → Store → Answer (Task × Task) × Store × List Event
  unlink_tasks now actor relation source_id target_id s =
      answer_checked (task_unlinked source_id target_id relation)
        (unlink c now actor relation source_id target_id s)
        (check_ends s relation source_id target_id) s
