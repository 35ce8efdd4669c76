-- ===== src/ErrorTracker/Lifecycle.antt =====
-- backend/app/services/error_tracker/lifecycle.py: what becomes of the error issues that are linked
-- to a task. The collection of issues is a list, with the fields that are read or set.
use claude_todo.Prelude.{
  ℕ, suc, String, Bool, true, false, ◌&&◌, List, [], ◌∷◌, string_eq, if◌then◌else◌, contains,
}

data IssueStatus : Type 0 where
  unresolved resolved ignored : IssueStatus

record ErrorIssue : Type 0 where
  linked_task_ids : List String
  status : IssueStatus
  updated_at : ℕ

abbrev is_unresolved : IssueStatus → Bool
is_unresolved unresolved = true
is_unresolved _ = false

-- `update_many`, with the number of issues that it changed.
unfoldable settle : IssueStatus → ℕ → String → List ErrorIssue → ℕ × List ErrorIssue
settle status now task_id [] = (0, [])
settle status now task_id (issue ∷ issues) =
    let (count, rest) = settle status now task_id issues in
    if contains issue.linked_task_ids task_id && is_unresolved issue.status
    then (suc count, record issue { status = status; updated_at = now } ∷ rest)
    else (count, issue ∷ rest)

unfoldable resolve_linked_issues : ℕ → String → List ErrorIssue → ℕ × List ErrorIssue
unfolding settle
resolve_linked_issues now task_id issues = settle resolved now task_id issues

unfoldable ignore_linked_issues : ℕ → String → List ErrorIssue → ℕ × List ErrorIssue
unfolding settle
ignore_linked_issues now task_id issues = settle ignored now task_id issues
