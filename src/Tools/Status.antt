-- ===== src/Tools/Status.antt =====
-- backend/app/mcp/tools/tasks.py: the tools that change one task, `complete_task` to
-- `delete_comment`. A notice is an event that is published, or a call that settles the error issues
-- that are linked to the task, which are another collection.
pub mod Times
use Prim.Native.String.{String}
use claude_todo.Prelude.{
  ℕ, suc, Bool, true, false, not, ◌||◌, Option, none, some, List, [], ◌∷◌, ◌++◌, ◌==◌, string_eq,
  if◌then◌else◌, ltb, filter,
}
use claude_todo.Tasks.Model.{
  Task, TaskStatus, todo, in_progress, on_hold, done, cancelled, Comment, ai, record_change,
  is_done, touch,
}
use claude_todo.Tasks.Collection.{Collection}
use claude_todo.Tasks.Link.{save_raised}
use claude_todo.Tools.{ToolError, Answer, answer, error, link_error, check_task}

pub data Notice : Type 0 where
  updated completed : Task → Notice
  comment_added : Comment → Notice
  comment_deleted : String → Notice
  issues_resolved issues_ignored : String → Notice

pub data StatusError : Type 0 where
  too_long comment_not_found : StatusError
  refused_by : ToolError → StatusError

pub data Reply : Type 0 where
  reply : Task → Reply
  fault : StatusError → Reply

-- `len`, in code points.
unfoldable pub str_length : String → ℕ
str_length String.[] = 0
str_length (String.◌∷◌ c s) = suc (str_length s)

abbrev pub status_str : TaskStatus → String
status_str todo = "todo"
status_str in_progress = "in_progress"
status_str on_hold = "on_hold"
status_str done = "done"
status_str cancelled = "cancelled"

abbrev pub set_status : TaskStatus → Option ℕ → String → ℕ → Task → Task
set_status status completed_at actor now task =
    let logged =
      record_change "status" (some (status_str task.status)) (some (status_str status)) actor ai now
        task in
    record logged { status = status; completed_at = completed_at }

abbrev pub report : Option String → Task → Task
report none task = task
report (some text) task = record task { completion_report = some text }

abbrev pub completed_task : Option String → String → ℕ → Task → Task
completed_task completion_report actor now task =
    report completion_report
      (if is_done task.status then task else set_status done (some now) actor now task)

abbrev pub has_report : Option String → Bool
has_report none = false
has_report (some text) = true

abbrev pub report_too_long : Option String → Bool
report_too_long none = false
report_too_long (some text) = ltb 10000 (str_length text)

abbrev pub find_comment : String → List Comment → Option Comment
find_comment comment_id [] = none
find_comment comment_id (x ∷ xs) =
    let rest = find_comment comment_id xs in if x.id == comment_id then some x else rest

module _ (c : Collection) (may locked : String → Bool) where
  open c use {Store, save}

  -- `save_updated`, and the notices of what was saved.
  abbrev pub save_task : ℕ → Task → (Task → List Notice) → Store → Reply × Store × List Notice
  save_task now task notices s =
      let (saved, s') = save s (touch now task) in
      (
        if saved then reply (touch now task) else fault (refused_by (link_error save_raised)),
        s',
        if saved then notices (touch now task) else [],
      )

  abbrev pub on_checked :
      Store → (Task → Reply × Store × List Notice) → Answer Task → Reply × Store × List Notice
  on_checked s change (error e) = (fault (refused_by e), s, [])
  on_checked s change (answer task) = change task

  abbrev pub with_task :
      String → Store → (Task → Reply × Store × List Notice) → Reply × Store × List Notice
  with_task task_id s change = on_checked s change (check_task c may locked s task_id)

  abbrev pub complete : ℕ → String → Option String → Store → Task → Reply × Store × List Notice
  complete now actor completion_report s task =
      if not (is_done task.status) || has_report completion_report
      then save_task now (completed_task completion_report actor now task)
          (λ t.
            updated t
            ∷ ((if is_done task.status then [] else completed t ∷ []) ++ issues_resolved t.id ∷ []))
          s
      else (reply task, s, [])

  unfoldable pub complete_task :
      ℕ → String → String → Option String → Store → Reply × Store × List Notice
  unfolding str_length
  complete_task now actor task_id completion_report s =
      let changed = with_task task_id s (complete now actor completion_report s) in
      if report_too_long completion_report then (fault too_long, s, []) else changed

  unfoldable pub reopen_task : ℕ → String → String → Store → Reply × Store × List Notice
  reopen_task now actor task_id s =
      with_task task_id s
        (λ task. save_task now (set_status todo none actor now task) (λ t. updated t ∷ []) s)

  unfoldable pub archive_task : ℕ → String → Store → Reply × Store × List Notice
  archive_task now task_id s = with_task task_id s (λ task.
      save_task now (record task { archived = true }) (λ t. updated t ∷ issues_ignored t.id ∷ []) s)

  unfoldable pub unarchive_task : ℕ → String → Store → Reply × Store × List Notice
  unarchive_task now task_id s =
      with_task task_id s
        (λ task. save_task now (record task { archived = false }) (λ t. updated t ∷ []) s)

  -- The comment's id is a new one.
  unfoldable pub add_comment :
      ℕ → String → String → String → String → Store → Reply × Store × List Notice
  unfolding str_length
  add_comment now author_name comment_id task_id content s =
      let comment : Comment = record {
        id = comment_id;
        content = content;
        author_id = "mcp";
        author_name = author_name;
        created_at = now;
      } in
      let added = with_task task_id s (λ task.
        save_task now (record task { comments = task.comments ++ comment ∷ [] })
          (λ t. comment_added comment ∷ []) s) in
      if ltb 10000 (str_length content) then (fault too_long, s, []) else added

  unfoldable pub delete_comment : ℕ → String → String → Store → Reply × Store × List Notice
  delete_comment now task_id comment_id s = with_task task_id s (λ task.
      elim (find_comment comment_id task.comments) [
        | none ↦ (fault comment_not_found, s, [])
        | some comment ↦
            save_task now
              (record task { comments = filter (λ x. not (x.id == comment_id)) task.comments })
              (λ t. comment_deleted comment_id ∷ []) s
      ])
