-- ===== src/Tasks/Link/Acyclic.antt =====
-- `link` keeps the `blocks` graph of every project free of cycles.
use claude_todo.Prelude.{
  ℕ, String, ◌≡◌, sym, ◌∙◌, subst, ◌⊎◌, inl, inr, true, some, [], ◌∷◌, arith, string_eq, Elem,
  Elem-append, some_injective,
}
use claude_todo.Tasks.Model.{Task, touch}
use claude_todo.Tasks.Collection.{Collection}
use claude_todo.Tasks.Graph.{Reach, Blocks, live_in, IsAcyclic, IsAcyclic-added}
use claude_todo.Tasks.Link.{add_block, add_blocker, save_both, link}
use claude_todo.Tasks.Link.Writes.{save_both_cases}
use claude_todo.Tasks.Link.Check.{IsLinkable, check_link-IsLinkable, link_cases}

pub live_in_project :
    (t : Task) (project_id : String) → live_in project_id t ≡ true → t.project_id ≡ project_id
live_in_project t project_id h = ground (arith, string_eq.beq_iff t.project_id project_id)

module _ (c : Collection) (now : ℕ) (changed_by relation source_id target_id : String)
    (s : c.Store) where
  module _ (source target : Task)
      (l : IsLinkable c relation source_id target_id s source target) where
    abbrev source' : Task
    source' = touch now (add_block c changed_by now target_id source)

    abbrev target' : Task
    target' = touch now (add_blocker c changed_by now source_id target)

    abbrev written : c.Store
    written =
        (save_both c now (add_block c changed_by now target_id source)
          (add_blocker c changed_by now source_id target) s).1

    -- The one edge that can be new.
    Blocks-written :
        (project_id a b : String)
        → Blocks c written project_id a b
        → Blocks c s project_id a b
          ⊎ ((a ≡ source_id)
              × (b ≡ target_id)
              × (¬ Reach (Blocks c s project_id) target_id source_id))
    Blocks-written project_id a b e =
        elim (save_both_cases c now (add_block c changed_by now target_id source)
          (add_blocker c changed_by now source_id target) s a) [
            | inl same ↦ inl (record {
              task = e.task;
              stored = sym same ∙ e.stored;
              live = e.live;
              lists = e.lists;
            })
            | inr (inl (at, wrote)) ↦
                let e_task : e.task ≡ source' = some_injective (sym e.stored ∙ wrote) in
                let at_source : a ≡ source_id =
                  sym at ∙ c.get_id s source_id source l.source_stored in
                let live : live_in project_id source ≡ true =
                  subst (λ t. live_in project_id t ≡ true) e_task e.live in
                elim (Elem-append b source.blocks (target_id ∷ [])
                  (subst (λ (t : Task). Elem b t.blocks) e_task e.lists)) [
                    | inl old ↦ inl (record {
                      task = source;
                      stored = subst (λ z. c.get s z ≡ some source) (sym at_source) l.source_stored;
                      live = live;
                      lists = old;
                    })
                    | inr (inl at_target) ↦ inr (
                      at_source,
                      at_target,
                      subst (λ p. ¬ Reach (Blocks c s p) target_id source_id)
                          (live_in_project source project_id live) l.no_cycle,
                    )
                    | inr (inr nothing) ↦ elim nothing [ ]
                  ]
            | inr (inr (at, wrote)) ↦
                let e_task : e.task ≡ target' = some_injective (sym e.stored ∙ wrote) in
                let at_target : a ≡ target_id =
                  sym at ∙ c.get_id s target_id target l.target_stored in
                inl (record {
                  task = target;
                  stored = subst (λ z. c.get s z ≡ some target) (sym at_target) l.target_stored;
                  live = subst (λ t. live_in project_id t ≡ true) e_task e.live;
                  lists = subst (λ (t : Task). Elem b t.blocks) e_task e.lists;
                })
          ]

-- If the `blocks` lists of the live tasks of a project hold no cycle, they hold none after `link`,
-- whatever its arguments and its outcome, also where one of the two writes raises.
pub link-IsAcyclic :
    (c : Collection) (now : ℕ) (changed_by relation source_id target_id project_id : String)
    (s : c.Store)
    → IsAcyclic (Blocks c s project_id)
    → IsAcyclic (Blocks c (link c now changed_by relation source_id target_id s).1 project_id)
link-IsAcyclic c now changed_by relation source_id target_id project_id s acyclic =
    elim (link_cases c now changed_by relation source_id target_id s) [
      | inl same ↦ subst (λ s'. IsAcyclic (Blocks c s' project_id)) (sym same) acyclic
      | inr (source, target, checked, wrote) ↦
          subst (λ s'. IsAcyclic (Blocks c s' project_id)) (sym wrote)
            (IsAcyclic-added _ _ source_id target_id
              (Blocks-written c now changed_by relation source_id target_id s source target
                (check_link-IsLinkable c relation source_id target_id s source target checked)
                project_id)
              acyclic)
    ]
