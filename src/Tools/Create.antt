-- ===== src/Tools/Create.antt =====
-- backend/app/mcp/tools/tasks.py: `create_task`. The id of the new document and the project that a
-- name stands for are arguments; the event of the new task carries the task that is returned.
pub mod Untimed
use claude_todo.Prelude.{
  ℕ, String, Bool, true, false, not, ◌&&◌, ◌||◌, Option, none, some, List, [], ◌∷◌, ◌==◌, string_eq,
  if◌then◌else◌, ltb,
}
use claude_todo.Tasks.Model.{Task, TaskStatus, TaskPriority, TaskType, DecisionContext}
use claude_todo.Tasks.Collection.{Collection}
use claude_todo.Tools.Status.{str_length}
use claude_todo.Tools.Update.{
  UpdateError, RawContext, no_keys, keys, parse_decision_context, status_of, priority_of, type_of,
  time_of, check_user,
}

pub data CreateError : Type 0 where
  title_too_long description_too_long invalid_task_type no_decision_point : CreateError
  project_not_found no_access project_locked invalid_date invalid_value save_raised : CreateError
  user_error : UpdateError → CreateError

pub record NewTask : Type 0 where
  pub title : String
  pub description : String
  pub priority : String
  pub status : String
  pub task_type : String
  pub decision_context : Option RawContext
  pub due_date : Option String
  pub assignee_id : Option String
  pub decider_id : Option String
  pub parent_task_id : Option String
  pub tags : Option (List String)

abbrev pub given_point : Option String → Bool
given_point none = false
given_point (some point) = not (point == "")

abbrev pub has_point : Option RawContext → Bool
has_point none = false
has_point (some no_keys) = false
has_point (some (keys background point options recommendation)) = given_point point

abbrev pub context_of : Option RawContext → Option DecisionContext
context_of none = none
context_of (some raw) = parse_decision_context raw

abbrev pub or_none : Option (List String) → List String
or_none none = []
or_none (some tags) = tags

pub data CreateReply : Type 0 where
  created : Task → CreateReply
  failed : CreateError → CreateReply

-- The fields that `create_task` does not name have the defaults of the document.
abbrev pub new_document :
    ℕ → String → String → String → NewTask → Option ℕ → TaskPriority → TaskStatus → TaskType → Task
new_document now id project_id creator args due_date priority status task_type = record {
  id = id;
  project_id = project_id;
  title = args.title;
  description = args.description;
  status = status;
  priority = priority;
  due_date = due_date;
  assignee_id = args.assignee_id;
  parent_task_id = args.parent_task_id;
  blocks = [];
  blocked_by = [];
  active_form = none;
  task_type = task_type;
  decision_context = context_of args.decision_context;
  decider_id = args.decider_id;
  decision_requested_at = time_of now args.decider_id;
  tags = or_none args.tags;
  comments = [];
  attachments = [];
  activity_log = [];
  created_by = creator;
  completion_report = none;
  completed_at = none;
  is_deleted = false;
  archived = false;
  needs_detail = false;
  approved = false;
  sort_order = 0;
  created_at = now;
  updated_at = now;
}

-- The three enumerations, each of which may raise.
abbrev pub of_names :
    (TaskPriority → TaskStatus → TaskType → Task)
    → Option TaskPriority
    → Option TaskStatus
    → Option TaskType
    → Option Task
of_names make (some priority) (some status) (some task_type) = some (make priority status task_type)
of_names make none status task_type = none
of_names make (some priority) none task_type = none
of_names make (some priority) (some status) none = none

abbrev pub first_failure : List (Bool × CreateError) → Option CreateError
first_failure [] = none
first_failure ((bad, e) ∷ tests) = if bad then some e else first_failure tests

abbrev pub is_decision : String → Bool
is_decision task_type = task_type == "decision"

abbrev pub check_new : NewTask → Option CreateError
check_new args = first_failure (
    (ltb 255 (str_length args.title), title_too_long)
    ∷ (ltb 10000 (str_length args.description), description_too_long)
    ∷ (not (args.task_type == "action" || is_decision args.task_type), invalid_task_type)
    ∷ (is_decision args.task_type && not (has_point args.decision_context), no_decision_point)
    ∷ [])

module _ (c : Collection) (may locked valid_id user_found : String → Bool)
    (parse_date : String → Option ℕ) where
  open c use {Store, save}

  -- `none` where `fromisoformat` raises.
  abbrev pub date_of : Option String → Option (Option ℕ)
  date_of none = some none
  date_of (some text) =
      if text == ""
      then some none
      else elim (parse_date text) [ none ↦ none | some date ↦ some (some date) ]

  abbrev pub insert_new : Store → Option Task → CreateReply × Store
  insert_new s none = (failed invalid_value, s)
  insert_new s (some task) =
      let (done, s') = save s task in (if done then created task else failed save_raised, s')

  abbrev pub with_user :
      ℕ
      → String
      → String
      → String
      → NewTask
      → Store
      → Option ℕ
      → Option UpdateError
      → CreateReply × Store
  with_user now id project_id creator args s due_date (some e) = (failed (user_error e), s)
  with_user now id project_id creator args s due_date none = insert_new s (
      of_names (new_document now id project_id creator args due_date) (priority_of args.priority)
        (status_of args.status) (type_of args.task_type))

  abbrev pub with_date :
      ℕ → String → String → String → NewTask → Store → Option (Option ℕ) → CreateReply × Store
  with_date now id project_id creator args s none = (failed invalid_date, s)
  with_date now id project_id creator args s (some due_date) =
      with_user now id project_id creator args s due_date
        (check_user c may locked valid_id user_found parse_date args.decider_id)

  abbrev pub in_project :
      ℕ → String → String → NewTask → Store → Option String → CreateReply × Store
  in_project now id creator args s none = (failed project_not_found, s)
  in_project now id creator args s (some project_id) =
      if not (may project_id)
      then (failed no_access, s)
      else if locked project_id
      then (failed project_locked, s)
      else with_date now id project_id creator args s (date_of args.due_date)

  abbrev pub unless_failed : Store → Option CreateError → CreateReply × Store → CreateReply × Store
  unless_failed s (some e) go_on = (failed e, s)
  unless_failed s none go_on = go_on

  unfoldable pub create_task :
      (String → Option String)
      → ℕ
      → String
      → String
      → String
      → NewTask
      → Store
      → CreateReply × Store
  unfolding str_length
  create_task resolve now id creator project args s =
      unless_failed s (check_new args) (in_project now id creator args s (resolve project))
