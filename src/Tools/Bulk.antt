-- ===== src/Tools/Bulk.antt =====
-- backend/app/mcp/tools/tasks.py: `batch_update_tasks`, `bulk_complete_tasks` and
-- `bulk_archive_tasks`. Each reads and changes the tasks one after the other, writes them at once by
-- `asyncio.gather`, and reports those that failed; an exception of one task is a failure of it. The
-- events and the calls on linked error issues follow the list of the tasks that were written.
pub mod Reported
pub mod Tally
use claude_todo.Prelude.{
  ℕ, String, Bool, true, false, not, ◌&&◌, ◌||◌, Option, none, some, List, [], ◌∷◌, ◌++◌, map, ◌==◌,
  string_eq, if◌then◌else◌, contains,
}
use claude_todo.Tasks.Model.{Task, TaskStatus, done, is_done, option_eq, transition_status, touch}
use claude_todo.Tasks.Collection.{Collection, gather_saves, saved_of, ids}
use claude_todo.Tasks.Approval.{cascade_approve_subtasks}
use claude_todo.Tools.{ToolError, Answer, answer, error, check_task}
use claude_todo.Tools.Status.{report}
use claude_todo.Tools.Update.{
  Changes, status_of, priority_of, type_of, unknown_name, or_old, named, moved_to, time_of,
  some_text, some_context, is_set, due_of,
}

pub data BulkError : Type 0 where
  task_id_required invalid_value parent_not_here not_saved : BulkError
  not_updatable : List String → BulkError
  refused_by : ToolError → BulkError

pub data Changed : Type 0 where
  changed : Task → Changed
  rejected : BulkError → Changed

-- One task of a call: its id, if one is given, and what is made of the task.
pub record Job : Type 0 where
  pub task_id : Option String
  pub change : Task → Changed

pub record BulkReply : Type 0 where
  pub saved : List Task
  pub failed : List (Option String × BulkError)

-- The tasks that are ready to be written, and the failures.
pub record Prepared : Type 0 where
  pub ready : List Task
  pub failed : List (Option String × BulkError)

abbrev pub add_changed : Option String → Changed → Prepared → Prepared
add_changed task_id (changed task) p = record p { ready = task ∷ p.ready }
add_changed task_id (rejected e) p = record p { failed = (task_id, e) ∷ p.failed }

-- The failures of the writes.
abbrev pub failed_saves : List Task → List Bool → List (Option String × BulkError)
failed_saves [] results = []
failed_saves (t ∷ ts) [] = []
failed_saves (t ∷ ts) (saved ∷ results) =
    let rest = failed_saves ts results in if saved then rest else (some t.id, not_saved) ∷ rest

abbrev pub completed_now : ℕ → Option String → Task → Changed
completed_now now completion_report task = changed (
    report completion_report (
      if is_done task.status then task else record task { status = done; completed_at = some now }))

abbrev pub archived_now : Task → Changed
archived_now task = changed (record task { archived = true })

-- An item of `batch_update_tasks`: `changes` and the two fields that only it can set, and the names
-- of fields that are not among the updatable ones.
pub record BatchItem : Type 0 where
  pub task_id : Option String
  pub changes : Changes
  pub sort_order : Option ℕ
  pub archived : Option Bool
  pub other_fields : List String

-- The id that an item names; an empty one is none.
abbrev pub item_id : Option String → Option String
item_id none = none
item_id (some text) = if text == "" then none else some text

abbrev pub item_name : Option String → String
item_name none = ""
item_name (some task_id) = task_id

-- A new decider sets the time of the request; an empty one clears it and is stored as it is.
abbrev pub batch_requested_at : ℕ → Option String → Option String → Option ℕ → Option ℕ
batch_requested_at now none old at = at
batch_requested_at now (some text) old at =
    if option_eq (some text) old then at else if text == "" then none else some now

abbrev pub batch_updated : ℕ → BatchItem → Option (Option ℕ) → Task → Task
batch_updated now item due_date task =
    let u = item.changes in
    let moved = moved_to u.status now task in
    record task {
      title = or_old u.title task.title;
      description = or_old u.description task.description;
      priority = named priority_of u.priority task.priority;
      status = moved.status;
      completed_at = moved.completed_at;
      task_type = named type_of u.task_type task.task_type;
      decision_context = or_old (some_context u.decision_context) task.decision_context;
      due_date = or_old due_date task.due_date;
      assignee_id = or_old (some_text u.assignee_id) task.assignee_id;
      decider_id = or_old (some_text u.decider_id) task.decider_id;
      decision_requested_at =
          batch_requested_at now u.decider_id task.decider_id task.decision_requested_at;
      tags = or_old u.tags task.tags;
      completion_report = or_old (some_text u.completion_report) task.completion_report;
      needs_detail = if is_set u.approved then false else or_old u.needs_detail task.needs_detail;
      approved = if is_set u.needs_detail then false else or_old u.approved task.approved;
      active_form = or_old (some_text u.active_form) task.active_form;
      sort_order = or_old item.sort_order task.sort_order;
      archived = or_old item.archived task.archived;
    }

abbrev pub has_others : List String → Bool
has_others [] = false
has_others (name ∷ names) = true

abbrev pub has_parent_field : Option String → Bool
has_parent_field none = false
has_parent_field (some parent) = true

-- A value that one of the enumerations does not have.
abbrev pub bad_value : Changes → Bool
bad_value u =
    unknown_name status_of u.status
    || unknown_name priority_of u.priority
    || unknown_name type_of u.task_type

module _ (parse_date : String → Option ℕ) where
  abbrev pub with_due : ℕ → BatchItem → Task → Option (Option (Option ℕ)) → Changed
  with_due now item task none = rejected invalid_value
  with_due now item task (some due_date) = changed (batch_updated now item due_date task)

  abbrev pub change_item : ℕ → BatchItem → Task → Changed
  change_item now item task =
      let made = with_due now item task (due_of parse_date item.changes.due_date) in
      if has_others item.other_fields
      then rejected (not_updatable item.other_fields)
      else if has_parent_field item.changes.parent_task_id
      then rejected parent_not_here
      else if bad_value item.changes
      then rejected invalid_value
      else made

  abbrev pub job_of : ℕ → BatchItem → Job
  job_of now item = record { task_id = item_id item.task_id; change = change_item now item }

module _ (c : Collection) (may locked : String → Bool) where
  open c use {Store}

  abbrev pub change_checked : (Task → Changed) → Answer Task → Changed
  change_checked change (error e) = rejected (refused_by e)
  change_checked change (answer task) = change task

  abbrev pub prepare_one : Store → Option String → (Task → Changed) → Changed
  prepare_one s none change = rejected task_id_required
  prepare_one s (some task_id) change = change_checked change (check_task c may locked s task_id)

  -- No task is written before all are read.
  unfoldable pub prepare : Store → List Job → Prepared
  prepare s [] = record { ready = []; failed = [] }
  prepare s (job ∷ jobs) =
      add_changed job.task_id (prepare_one s job.task_id job.change) (prepare s jobs)

  unfoldable pub run_jobs : ℕ → Store → List Job → BulkReply × Store
  unfolding prepare gather_saves
  run_jobs now s jobs =
      let p = prepare s jobs in
      let (results, s') = gather_saves c now s p.ready in
      (
        record {
          saved = saved_of (map (touch now) p.ready) results;
          failed = p.failed ++ failed_saves p.ready results;
        },
        s',
      )

  abbrev pub bulk_complete_tasks : ℕ → List String → Option String → Store → BulkReply × Store
  bulk_complete_tasks now task_ids completion_report s = run_jobs now s (
      map
        (λ task_id. record { task_id = some task_id; change = completed_now now completion_report })
        task_ids)

  abbrev pub bulk_archive_tasks : ℕ → List String → Store → BulkReply × Store
  bulk_archive_tasks now task_ids s =
      run_jobs now s
        (map (λ task_id. record { task_id = some task_id; change = archived_now }) task_ids)

  abbrev pub wants_cascade : List String → BatchItem → Bool
  wants_cascade saved_ids item = elim (item_id item.task_id) [
    | none ↦ false
    | some task_id ↦ contains saved_ids task_id && is_set item.changes.approved
  ]

  -- The cascades of the items that were written and approved, one after the other.
  unfoldable pub cascades : ℕ → String → List String → List BatchItem → Store → Store
  cascades now actor saved_ids [] s = s
  cascades now actor saved_ids (item ∷ items) s =
      let swept = (cascade_approve_subtasks c actor now s (item_name item.task_id)).1 in
      cascades now actor saved_ids items (if wants_cascade saved_ids item then swept else s)

  abbrev pub batch_update_tasks :
      (String → Option ℕ) → ℕ → String → List BatchItem → Store → BulkReply × Store
  batch_update_tasks parse_date now actor items s =
      let (reply, s') = run_jobs now s (map (job_of parse_date now) items) in
      (reply, cascades now actor (ids reply.saved) items s')
