-- ===== src/Tasks/Model.antt =====
-- backend/app/models/task.py: the task document and its methods. A datetime is the number of
-- microseconds since the epoch, and `now` is the reading of the clock by the method.
pub mod Timed
use claude_todo.Prelude.{
  ℕ, String, Bool, true, false, not, ◌&&◌, Option, none, some, List, [], ◌∷◌, ◌++◌, ◌==◌, string_eq,
  if◌then◌else◌,
}

pub data TaskStatus : Type 0 where
  todo in_progress on_hold done cancelled : TaskStatus

pub data TaskPriority : Type 0 where
  low medium high urgent : TaskPriority

pub data TaskType : Type 0 where
  action decision : TaskType

pub data ActorType : Type 0 where
  human ai system : ActorType

pub record DecisionOption : Type 0 where
  pub label : String
  pub description : String

pub record DecisionContext : Type 0 where
  pub background : String
  pub decision_point : String
  pub options : List DecisionOption
  pub recommendation : Option String

pub record ActivityEntry : Type 0 where
  pub field : String
  pub old_value : Option String
  pub new_value : Option String
  pub changed_by : String
  pub changed_at : ℕ
  pub actor_type : ActorType

pub record Attachment : Type 0 where
  pub id : String
  pub filename : String
  pub content_type : String
  pub size : ℕ
  pub created_at : ℕ

pub record Comment : Type 0 where
  pub id : String
  pub content : String
  pub author_id : String
  pub author_name : String
  pub created_at : ℕ

-- `id` is the document's `_id`, as `str` prints it.
pub record Task : Type 0 where
  pub id : String
  pub project_id : String
  pub title : String
  pub description : String
  pub status : TaskStatus
  pub priority : TaskPriority
  pub due_date : Option ℕ
  pub assignee_id : Option String
  pub parent_task_id : Option String
  pub blocks : List String
  pub blocked_by : List String
  pub active_form : Option String
  pub task_type : TaskType
  pub decision_context : Option DecisionContext
  pub decider_id : Option String
  pub decision_requested_at : Option ℕ
  pub tags : List String
  pub comments : List Comment
  pub attachments : List Attachment
  pub activity_log : List ActivityEntry
  pub created_by : String
  pub completion_report : Option String
  pub completed_at : Option ℕ
  pub is_deleted : Bool
  pub archived : Bool
  pub needs_detail : Bool
  pub approved : Bool
  pub sort_order : ℕ
  pub created_at : ℕ
  pub updated_at : ℕ

abbrev pub option_eq : Option String → Option String → Bool
option_eq none none = true
option_eq (some a) (some b) = a == b
option_eq _ _ = false

-- The early return leaves the log as it is; nothing else is assigned.
abbrev pub record_change :
    String → Option String → Option String → String → ActorType → ℕ → Task → Task
record_change field old_value new_value changed_by actor_type now t = record t {
  activity_log =
      if option_eq old_value new_value
      then t.activity_log
      else t.activity_log
        ++ record {
          field = field;
          old_value = old_value;
          new_value = new_value;
          changed_by = changed_by;
          changed_at = now;
          actor_type = actor_type;
        }
          ∷ [];
}

abbrev pub is_done : TaskStatus → Bool
is_done done = true
is_done _ = false

unfoldable pub transition_status : TaskStatus → ℕ → Task → Task
transition_status new_status now t =
    let completed_at =
      if is_done new_status && not (is_done t.status)
      then some now
      else if not (is_done new_status)
      then none
      else t.completed_at in
    record t { completed_at = completed_at; status = new_status }

-- The assignment of `save_updated`; the write itself is `save` of the collection.
abbrev pub touch : ℕ → Task → Task
touch now t = record t { updated_at = now }
