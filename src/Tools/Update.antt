-- ===== src/Tools/Update.antt =====
-- backend/app/mcp/tools/tasks.py: `update_task`. Whether an id of a user is well formed and whether
-- the user exists are arguments, and so is `datetime.fromisoformat`, which is `none` where it raises.
pub mod Kept
use claude_todo.Prelude.{
  ℕ, String, Bool, true, false, not, ◌&&◌, Option, none, some, List, [], ◌∷◌, ◌++◌, map, ◌==◌,
  string_eq, if◌then◌else◌, ltb,
}
use claude_todo.Tasks.Model.{
  Task, TaskStatus, todo, in_progress, on_hold, done, cancelled, TaskPriority, low, medium, high,
  urgent, TaskType, action, decision, DecisionContext, DecisionOption, ActivityEntry, ai,
  record_change, option_eq, transition_status, touch,
}
use claude_todo.Tasks.Collection.{Collection}
use claude_todo.Tasks.Approval.{bool_str, Cascade, cascade_approve_subtasks}
use claude_todo.Tasks.Parents.{has_parent_cycle}
use claude_todo.Tools.{ToolError, Answer, answer, error, check_task}
use claude_todo.Tools.Status.{str_length, status_str}

pub data UpdateError : Type 0 where
  title_too_long description_too_long report_too_long active_form_too_long : UpdateError
  invalid_status invalid_priority invalid_task_type invalid_date : UpdateError
  self_reference target_not_found cross_project invalid_user user_not_found save_raised :
      UpdateError
  parent_cycle : List String → UpdateError
  refused_by : ToolError → UpdateError

-- The dict of a decision, without keys or with the values of those that it has.
pub data RawContext : Type 0 where
  no_keys : RawContext
  keys :
      Option String
      → Option String
      → List (Option String × Option String)
      → Option String
      → RawContext

-- The arguments that are not None.
pub record Changes : Type 0 where
  pub title : Option String
  pub description : Option String
  pub priority : Option String
  pub status : Option String
  pub task_type : Option String
  pub decision_context : Option RawContext
  pub due_date : Option String
  pub assignee_id : Option String
  pub decider_id : Option String
  pub parent_task_id : Option String
  pub tags : Option (List String)
  pub completion_report : Option String
  pub needs_detail : Option Bool
  pub approved : Option Bool
  pub active_form : Option String

abbrev pub or_blank : Option String → String
or_blank none = ""
or_blank (some text) = text

abbrev pub option_of : Option String × Option String → DecisionOption
option_of (label, description) = record {
  label = or_blank label;
  description = or_blank description;
}

abbrev pub parse_decision_context : RawContext → Option DecisionContext
parse_decision_context no_keys = none
parse_decision_context (keys background decision_point options recommendation) = some (record {
  background = or_blank background;
  decision_point = or_blank decision_point;
  options = map option_of options;
  recommendation = recommendation;
})

abbrev pub status_of : String → Option TaskStatus
status_of s =
    if s == "todo"
    then some todo
    else if s == "in_progress"
    then some in_progress
    else if s == "on_hold"
    then some on_hold
    else if s == "done"
    then some done
    else if s == "cancelled"
    then some cancelled
    else none

abbrev pub priority_of : String → Option TaskPriority
priority_of s =
    if s == "low"
    then some low
    else if s == "medium"
    then some medium
    else if s == "high"
    then some high
    else if s == "urgent"
    then some urgent
    else none

abbrev pub type_of : String → Option TaskType
type_of s = if s == "action" then some action else if s == "decision" then some decision else none

abbrev pub priority_str : TaskPriority → String
priority_str low = "low"
priority_str medium = "medium"
priority_str high = "high"
priority_str urgent = "urgent"

abbrev pub type_str : TaskType → String
type_str action = "action"
type_str decision = "decision"

abbrev pub longer : ℕ → Option String → Bool
longer n none = false
longer n (some text) = ltb n (str_length text)

-- An argument is given and names nothing.
abbrev pub unknown_name : {A : Type 0} → (String → Option A) → Option String → Bool
unknown_name f none = false
unknown_name f (some name) = elim (f name) [ none ↦ true | some a ↦ false ]

abbrev pub first_error : List (Bool × UpdateError) → Option UpdateError
first_error [] = none
first_error ((bad, e) ∷ tests) = if bad then some e else first_error tests

-- The tests of the arguments, before any document is read.
abbrev pub check_arguments : Changes → Option UpdateError
check_arguments u = first_error (
    (longer 255 u.title, title_too_long)
    ∷ (longer 10000 u.description, description_too_long)
    ∷ (longer 10000 u.completion_report, report_too_long)
    ∷ (longer 500 u.active_form, active_form_too_long)
    ∷ (unknown_name status_of u.status, invalid_status)
    ∷ (unknown_name priority_of u.priority, invalid_priority)
    ∷ (unknown_name type_of u.task_type, invalid_task_type)
    ∷ [])

-- An empty text stands for None.
abbrev pub cleared : String → Option String
cleared text = if text == "" then none else some text

abbrev pub or_old : {A : Type 0} → Option A → A → A
or_old none old = old
or_old (some new) old = new

-- The value of a field that a given text sets, or clears if it is empty.
abbrev pub or_kept : Option String → Option String → Option String
or_kept none old = old
or_kept (some text) old = cleared text

abbrev pub named : {A : Type 0} → (String → Option A) → Option String → A → A
named f none old = old
named f (some name) old = or_old (f name) old

abbrev pub moved_to : Option String → ℕ → Task → Task
moved_to none now task = task
moved_to (some name) now task = elim (status_of name) [
  | none ↦ task
  | some status ↦ transition_status status now task
]

abbrev pub time_of : ℕ → Option String → Option ℕ
time_of now none = none
time_of now (some decider) = some now

-- `decision_requested_at`: a new time, or none, where the decider changes.
abbrev pub requested_at : ℕ → Option String → Option String → Option ℕ → Option ℕ
requested_at now none old at = at
requested_at now (some text) old at =
    if option_eq (cleared text) old then at else time_of now (cleared text)

abbrev pub some_context : Option RawContext → Option (Option DecisionContext)
some_context none = none
some_context (some raw) = some (parse_decision_context raw)

-- `updates.get("approved")` and `updates.get("needs_detail")` as tests.
abbrev pub is_set : Option Bool → Bool
is_set none = false
is_set (some b) = b

abbrev pub some_text : Option String → Option (Option String)
some_text none = none
some_text (some text) = some (some text)

abbrev pub some_cleared : Option String → Option (Option String)
some_cleared none = none
some_cleared (some text) = some (cleared text)

-- `record_change` of a field that the arguments have.
abbrev pub track :
    String
    → ℕ
    → Task
    → String
    → Option String
    → Option (Option String)
    → List ActivityEntry
    → List ActivityEntry
track actor now task field old none log = log
track actor now task field old (some new) log =
    (record_change field old new actor ai now (record task { activity_log = log })).activity_log

abbrev pub some_of_bool : Option Bool → Option (Option String)
some_of_bool none = none
some_of_bool (some b) = some (some (bool_str b))

-- The entries of the tracked fields, in the order of the arguments, each with the value before.
abbrev pub tracked : String → ℕ → Changes → Task → List ActivityEntry
tracked actor now u task =
    track actor now task "approved" (some (bool_str task.approved)) (some_of_bool u.approved) (
      track actor now task "needs_detail" (some (bool_str task.needs_detail))
        (some_of_bool u.needs_detail)
        (track actor now task "parent_task_id" task.parent_task_id (some_cleared u.parent_task_id) (
          track actor now task "decider_id" task.decider_id (some_cleared u.decider_id) (
            track actor now task "assignee_id" task.assignee_id (some_text u.assignee_id) (
              track actor now task "task_type" (some (type_str task.task_type))
                (some_text u.task_type)
                (track actor now task "status" (some (status_str task.status)) (some_text u.status)
                  (track actor now task "priority" (some (priority_str task.priority))
                    (some_text u.priority) task.activity_log)))))))

-- What the loop over the arguments and the two lines behind it make of the task. The loop assigns
-- each field once, so that only the log shows its order; `due_date` is the parsed argument.
abbrev pub updated_task : String → ℕ → Changes → Option (Option ℕ) → Task → Task
updated_task actor now u due_date task =
    let moved = moved_to u.status now task in
    record task {
      title = or_old u.title task.title;
      description = or_old u.description task.description;
      priority = named priority_of u.priority task.priority;
      status = moved.status;
      completed_at = moved.completed_at;
      task_type = named type_of u.task_type task.task_type;
      decision_context = or_old (some_context u.decision_context) task.decision_context;
      due_date = or_old due_date task.due_date;
      assignee_id = or_old (some_text u.assignee_id) task.assignee_id;
      decider_id = or_kept u.decider_id task.decider_id;
      decision_requested_at =
          requested_at now u.decider_id task.decider_id task.decision_requested_at;
      parent_task_id = or_kept u.parent_task_id task.parent_task_id;
      tags = or_old u.tags task.tags;
      completion_report = or_old (some_text u.completion_report) task.completion_report;
      needs_detail = if is_set u.approved then false else or_old u.needs_detail task.needs_detail;
      approved = if is_set u.needs_detail then false else or_old u.approved task.approved;
      active_form = or_kept u.active_form task.active_form;
      activity_log = tracked actor now u task;
    }

pub data UpdateReply : Type 0 where
  updated : Task → UpdateReply
  failed : UpdateError → UpdateReply

module _ (parse_date : String → Option ℕ) where
  -- `none` where `fromisoformat` raises; no argument leaves the date.
  abbrev pub due_of : Option String → Option (Option (Option ℕ))
  due_of none = some none
  due_of (some text) =
      if text == ""
      then some (some none)
      else elim (parse_date text) [ none ↦ none | some date ↦ some (some (some date)) ]

module _ (c : Collection) (may locked valid_id user_found : String → Bool)
    (parse_date : String → Option ℕ) where
  open c use {Store, get, save}

  abbrev pub cycle_error : Option (List String) → Option UpdateError
  cycle_error none = none
  cycle_error (some path) = some (parent_cycle path)

  abbrev pub check_target : Store → Task → String → String → Option Task → Option UpdateError
  check_target s task task_id parent none = some target_not_found
  check_target s task task_id parent (some target) =
      if target.is_deleted
      then some target_not_found
      else if not (target.project_id == task.project_id)
      then some cross_project
      else cycle_error (has_parent_cycle c task.project_id task_id s parent)

  -- A new parent that is not None.
  abbrev pub check_new_parent : Store → Task → String → Option String → Option UpdateError
  check_new_parent s task task_id none = none
  check_new_parent s task task_id (some parent) =
      if parent == task_id
      then some self_reference
      else check_target s task task_id parent (get s parent)

  abbrev pub check_parent : Store → Task → String → Option String → Option UpdateError
  check_parent s task task_id none = none
  check_parent s task task_id (some text) = check_new_parent s task task_id (cleared text)

  abbrev pub check_user : Option String → Option UpdateError
  check_user none = none
  check_user (some user_id) =
      if not (valid_id user_id)
      then some invalid_user
      else if not (user_found user_id)
      then some user_not_found
      else none

  abbrev pub check_decider : Option String → Option UpdateError
  check_decider none = none
  check_decider (some text) = check_user (cleared text)

  -- The write, and the cascade where the argument `approved` is true.
  abbrev pub write_update :
      ℕ → String → Changes → Task → Store → UpdateReply × Store × Option Cascade
  write_update now actor u task s =
      let (saved, s') = save s (touch now task) in
      let (cascade, s'') = cascade_approve_subtasks c actor now s' task.id in
      if not saved
      then (failed save_raised, s', none)
      else if is_set u.approved
      then (updated (touch now task), s'', some cascade)
      else (updated (touch now task), s', none)

  abbrev pub apply_update :
      ℕ
      → String
      → Changes
      → Store
      → Task
      → Option (Option (Option ℕ))
      → UpdateReply × Store × Option Cascade
  apply_update now actor u s task none = (failed invalid_date, s, none)
  apply_update now actor u s task (some due_date) =
      write_update now actor u (updated_task actor now u due_date task) s

  abbrev pub unless_error :
      Store
      → Option UpdateError
      → UpdateReply × Store × Option Cascade
      → UpdateReply × Store × Option Cascade
  unless_error s (some e) go_on = (failed e, s, none)
  unless_error s none go_on = go_on

  abbrev pub update_loaded :
      ℕ → String → String → Changes → Store → Answer Task → UpdateReply × Store × Option Cascade
  update_loaded now actor task_id u s (error e) = (failed (refused_by e), s, none)
  update_loaded now actor task_id u s (answer task) =
      unless_error s (check_parent s task task_id u.parent_task_id) (
        unless_error s (check_decider u.decider_id)
          (apply_update now actor u s task (due_of parse_date u.due_date)))

  unfoldable pub update_task :
      ℕ → String → String → Changes → Store → UpdateReply × Store × Option Cascade
  unfolding str_length
  update_task now actor task_id u s =
      unless_error s (check_arguments u)
        (update_loaded now actor task_id u s (check_task c may locked s task_id))
