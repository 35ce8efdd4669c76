-- ===== src/Tasks/Examples.antt =====
-- Small collections, what the operations do on them, and the theorems at these inputs.
use claude_todo.Prelude.{
  ◌++◌, ℕ, String, ◌≡◌, refl, sym, subst, ◌≢◌, ◌↔◌, inl, inr, true, false, none, some, List, [],
  ◌∷◌, arith, nat_eq, string_eq, ◌==◌, if◌then◌else◌, Elem, contains,
}
use claude_todo.Tasks.Link.{
  Result, ok, link, unlink, cleanup_dependents, check_link, check_unlink, add_block, add_blocker,
  drop_block, drop_blocker,
}
use claude_todo.Tasks.Link.Acyclic.{link-IsAcyclic}
use claude_todo.Tasks.Link.Mutual.{IsMutual, link-IsMutual, unlink-IsMutual}
use claude_todo.Tasks.Link.Undo.{SameLinks, unlink-link}
use claude_todo.Tasks.Link.Check.{IsLinkable, check_link_iff}
use claude_todo.Tasks.Link.Cleanup.{cleanup_clears, cleanup_others}
use claude_todo.Tasks.Parents.{has_parent_cycle}
use claude_todo.Tasks.Parents.Chain.{Found as ChainFound, has_parent_cycle-Found}
use claude_todo.Tasks.Approval.{approve, cascade_approve_subtasks}
use claude_todo.Tasks.Approval.Sweeps.{Under}
use claude_todo.Tasks.Approval.Effect.{cascade_approved, cascade_others, cascade_saved}
use claude_todo.Tasks.Model.{Task, human, touch, todo, medium, action}
use claude_todo.Tasks.Memory.{
  Documents, documents, memory, fetch, put, ranked-IsAcyclic, unlinked-IsMutual,
}
use claude_todo.Tasks.Graph.{here, next, Blocks, HasChild, IsAcyclic}
use claude_todo.Tasks.Search.{has_cycle, cycle_path}
use claude_todo.Tasks.Search.Layers.{Found as WalkFound, has_cycle-Found}

abbrev pub task : String → List String → List String → Task
task id blocks blocked_by = record {
  id = id;
  project_id = "p";
  title = id;
  description = "";
  status = todo;
  priority = medium;
  due_date = none;
  assignee_id = none;
  parent_task_id = none;
  blocks = blocks;
  blocked_by = blocked_by;
  active_form = none;
  task_type = action;
  decision_context = none;
  decider_id = none;
  decision_requested_at = none;
  tags = [];
  comments = [];
  attachments = [];
  activity_log = [];
  created_by = "u";
  completion_report = none;
  completed_at = none;
  is_deleted = false;
  archived = false;
  needs_detail = false;
  approved = false;
  sort_order = 0;
  created_at = 0;
  updated_at = 0;
}

-- a blocks b, and b blocks c.
abbrev pub three : Documents
three =
    documents
      (task "a" ("b" ∷ []) [] ∷ task "b" ("c" ∷ []) ("a" ∷ []) ∷ task "c" [] ("b" ∷ []) ∷ []) refl

closing : has_cycle (memory []) three "p" "c" "a" ≡ some ("a" ∷ "b" ∷ "c" ∷ [])
unfolding has_cycle cycle_path
closing = refl

has_cycle-Found_example :
    WalkFound (memory []) three "p" "c" "a" (has_cycle (memory []) three "p" "c" "a")
has_cycle-Found_example = has_cycle-Found (memory []) three "p" "c" "a"

abbrev pub rank : String → ℕ
rank i = if i == "a" then 0 else if i == "b" then 1 else 2

link-IsAcyclic_example :
    IsAcyclic (Blocks (memory []) (link (memory []) 7 "u" "blocks" "a" "c" three).1 "p")
link-IsAcyclic_example =
    link-IsAcyclic (memory []) 7 "u" "blocks" "a" "c" "p" three
      (ranked-IsAcyclic [] rank three (omega arith) "p")

abbrev two : Documents
two = documents (task "a" [] [] ∷ task "b" [] [] ∷ []) refl

abbrev linked_two : Documents
linked_two = (link (memory []) 7 "u" "blocks" "a" "b" two).1

abbrev linked_a : Task
linked_a = touch 7 (add_block (memory []) "u" 7 "b" (task "a" [] []))

abbrev linked_b : Task
linked_b = touch 7 (add_blocker (memory []) "u" 7 "a" (task "b" [] []))

two_linked : (link (memory []) 7 "u" "blocks" "a" "b" two).0 ≡ ok (linked_a, linked_b)
unfolding link check_link has_cycle fetch put
two_linked = refl

two-IsMutual : IsMutual (memory []) two
two-IsMutual = unlinked-IsMutual [] two ((refl, refl), ((refl, refl), tt))

link-IsMutual_example : IsMutual (memory []) linked_two
link-IsMutual_example =
    link-IsMutual (memory []) 7 "u" "blocks" "a" "b" two linked_a linked_b two_linked two-IsMutual

abbrev unlinked_a : Task
unlinked_a = touch 9 (drop_block (memory []) "u" 9 "b" linked_a)

abbrev unlinked_b : Task
unlinked_b = touch 9 (drop_blocker (memory []) "u" 9 "a" linked_b)

unlink_two : (unlink (memory []) 9 "u" "blocks" "a" "b" linked_two).0 ≡ ok (unlinked_a, unlinked_b)
unfolding link check_link unlink check_unlink has_cycle fetch put
unlink_two = refl

a_not_b : ◌≢◌ {A = String} "a" "b"
a_not_b = ground (arith, string_eq.beq_iff "a" "b")

unlink-IsMutual_example :
    IsMutual (memory []) (unlink (memory []) 9 "u" "blocks" "a" "b" linked_two).1
unlink-IsMutual_example =
    unlink-IsMutual (memory []) 9 "u" "blocks" "a" "b" linked_two unlinked_a unlinked_b a_not_b
      unlink_two
      (link-IsMutual (memory []) 7 "u" "blocks" "a" "b" two linked_a linked_b two_linked
        two-IsMutual)

unlink-link_example :
    SameLinks
      ((memory []).get two "a")
      ((memory []).get (unlink (memory []) 9 "u" "blocks" "a" "b" linked_two).1 "a")
unlink-link_example =
    unlink-link (memory []) 7 9 "u" "u" "blocks" "a" "b" two linked_a linked_b unlinked_a unlinked_b
      two-IsMutual two_linked unlink_two "a"

check_link_iff_example :
    (check_link (memory []) "blocks" "a" "b" two ≡ ok (task "a" [] [], task "b" [] []))
    ↔ IsLinkable (memory []) "blocks" "a" "b" two (task "a" [] []) (task "b" [] [])
check_link_iff_example =
    check_link_iff (memory []) "blocks" "a" "b" two (task "a" [] []) (task "b" [] [])

-- The blocker of `b` is taken out, and `c`, which has another blocker, is left.
abbrev pub blocked : Documents
blocked =
    documents (task "a" [] [] ∷ task "b" [] ("x" ∷ "a" ∷ []) ∷ task "c" [] ("b" ∷ []) ∷ []) refl

abbrev cleaned : Result (List Task) × Documents
cleaned = cleanup_dependents (memory []) 7 "a" "p" "u" blocked

abbrev pub freed : Task
freed = touch 7 (drop_blocker (memory []) "u" 7 "a" (task "b" [] ("x" ∷ "a" ∷ [])))

cleaned_ok : cleaned.0 ≡ ok (freed ∷ [])
unfolding cleanup_dependents fetch put
cleaned_ok = refl

cleaned_b : (memory []).get cleaned.1 "b" ≡ some freed
unfolding cleanup_dependents fetch put
cleaned_b = refl

cleanup_clears_example : contains freed.blocked_by "a" ≡ false
cleanup_clears_example =
    cleanup_clears (memory []) 7 "a" "p" "u" blocked (freed ∷ []) "b" freed cleaned_ok cleaned_b
      refl

stored_c : (memory []).get blocked "c" ≡ some (task "c" [] ("b" ∷ []))
unfolding fetch
stored_c = refl

cleanup_others_example : (memory []).get cleaned.1 "c" ≡ some (task "c" [] ("b" ∷ []))
cleanup_others_example =
    cleanup_others (memory []) 7 "a" "p" "u" blocked "c" (task "c" [] ("b" ∷ [])) stored_c
      (inl refl)

-- `c` under `b` under `a`; `b` is approved already.
abbrev family : Documents
family =
    documents
      (task "a" [] []
        ∷ record (task "b" [] []) { parent_task_id = some "a"; approved = true }
        ∷ record (task "c" [] []) { parent_task_id = some "b"; needs_detail = true }
        ∷ [])
      refl

abbrev task_c : Task
task_c = record (task "c" [] []) { parent_task_id = some "b"; needs_detail = true }

climbed : has_parent_cycle (memory []) "p" "a" family "c" ≡ some ("a" ∷ "b" ∷ "c" ∷ [])
unfolding has_parent_cycle
climbed = refl

has_parent_cycle-Found_example :
    ChainFound (memory []) family "p" "a" "c" (has_parent_cycle (memory []) "p" "a" family "c")
has_parent_cycle-Found_example = has_parent_cycle-Found (memory []) family "p" "a" "c"

abbrev task_b : Task
task_b = record (task "b" [] []) { parent_task_id = some "a"; approved = true }

b_under_a : HasChild (memory []) family "a" "b"
unfolding fetch
b_under_a = record { task = task_b; stored = refl; live = refl; parent = refl }

c_under_b : HasChild (memory []) family "b" "c"
unfolding fetch
c_under_b = record { task = task_c; stored = refl; live = refl; parent = refl }

c-Under_a : Under (memory []) "u" 7 family "a" "c"
c-Under_a = ("b", next here b_under_a, c_under_b)

stored_family :
    ((memory []).get family "c" ≡ some task_c) × ((memory []).get family "b" ≡ some task_b)
unfolding fetch
stored_family = (refl, refl)

cascade_approved_example :
    (memory []).get (cascade_approve_subtasks (memory []) "u" 7 family "a").1 "c"
    ≡ some (record task_c {
      approved = true;
      needs_detail = false;
      updated_at = 7;
      activity_log =
          task_c.activity_log
          ++ record {
            field = "approved";
            old_value = some "False";
            new_value = some "True";
            changed_by = "u";
            changed_at = 7;
            actor_type = human;
          }
            ∷ [];
    })
cascade_approved_example =
    cascade_approved (memory []) "u" 7 family "a" "c" task_c (λ s t. refl) c-Under_a stored_family.0
      refl

cascade_others_example :
    (memory []).get (cascade_approve_subtasks (memory []) "u" 7 family "a").1 "b" ≡ some task_b
cascade_others_example =
    cascade_others (memory []) "u" 7 family "a" "b" task_b stored_family.1 (inr refl)

cascade_saves :
    (cascade_approve_subtasks (memory []) "u" 7 family "a").0.saved
    ≡ touch 7 (approve "u" 7 task_c) ∷ []
unfolding cascade_approve_subtasks
cascade_saves = refl

cascade_saved_example :
    ((memory []).get
        (cascade_approve_subtasks (memory []) "u" 7 family "a").1
        (touch 7 (approve "u" 7 task_c)).id
      ≡ some (touch 7 (approve "u" 7 task_c)))
    × ((touch 7 (approve "u" 7 task_c)).approved ≡ true)
    × ((touch 7 (approve "u" 7 task_c)).needs_detail ≡ false)
    × Under (memory []) "u" 7 family "a" (touch 7 (approve "u" 7 task_c)).id
    × ((t : Task) × ((memory []).get family (touch 7 (approve "u" 7 task_c)).id ≡ some t)
        × (t.approved ≡ false))
cascade_saved_example =
    cascade_saved (memory []) "u" 7 family "a" (touch 7 (approve "u" 7 task_c))
      (subst (Elem (touch 7 (approve "u" 7 task_c))) (sym cascade_saves) (inl refl))
