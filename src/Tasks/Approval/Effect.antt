-- ===== src/Tasks/Approval/Effect.antt =====
-- The collection after `cascade_approve_subtasks`.
use claude_todo.Prelude.{
  ℕ, String, ◌≡◌, refl, sym, ap, ◌∙◌, subst, ◌⊎◌, inl, inr, true, false, some, List, [], ◌∷◌, ◌++◌,
  nat_eq, string_eq, some_injective, Elem,
}
use claude_todo.Tasks.Model.{Task, human, touch}
use claude_todo.Tasks.Collection.{Collection, gather_saves}
use claude_todo.Tasks.Gather.{Unique, gather_cases, gather-Stored, all_saved}
use claude_todo.Tasks.Approval.{approve, sweep_from, cascade_approve_subtasks}
use claude_todo.Tasks.Approval.Sweeps.{Under, sweep_from-IsDone, IsDone-Under}

module _ (c : Collection) (actor : String) (now : ℕ) (s : c.Store) (root : String) where
  abbrev mutated : List Task
  mutated = (sweep_from c actor now s root).mutated

  mutated-Unique : Unique c now mutated
  unfolding approve
  mutated-Unique a b ha hb same =
      let d = (sweep_from-IsDone c actor now s root).marked in
      let (t, ea, ta, _, _) = d.made a ha in
      let (u, eb, ub, _, _) = d.made b hb in
      let ids : t.id ≡ u.id =
        sym (ap (λ (z : Task). z.id) ea) ∙ same ∙ ap (λ (z : Task). z.id) eb in
      let one : t ≡ u = some_injective (sym ta ∙ ap (c.get s) ids ∙ ub) in
      ea ∙ ap (approve actor now) one ∙ sym eb

  abbrev cascaded : c.Store
  cascaded = (cascade_approve_subtasks c actor now s root).1

approve-made :
    (actor : String) (now : ℕ) (t : Task)
    → t.approved ≡ false
    → touch now (approve actor now t) ≡ record t {
      approved = true;
      needs_detail = false;
      updated_at = now;
      activity_log =
          t.activity_log
          ++ record {
            field = "approved";
            old_value = some "False";
            new_value = some "True";
            changed_by = actor;
            changed_at = now;
            actor_type = human;
          }
            ∷ [];
    }
unfolding approve
approve-made actor now t open_still = rw open_still refl

-- Where no write raises, every live descendant of the task that was not approved is stored
-- with `approved` on, `needs_detail` off, the time of the write and one more entry in its log, that
-- of the approval by the caller, and is otherwise as it was.
pub cascade_approved :
    (c : Collection) (actor : String) (now : ℕ) (s : c.Store) (root i : String) (t : Task)
    → ((s' : c.Store) (u : Task) → (c.save s' u).0 ≡ true)
    → Under c actor now s root i
    → c.get s i ≡ some t
    → t.approved ≡ false
    → c.get (cascade_approve_subtasks c actor now s root).1 i
      ≡ some (record t {
        approved = true;
        needs_detail = false;
        updated_at = now;
        activity_log =
            t.activity_log
            ++ record {
              field = "approved";
              old_value = some "False";
              new_value = some "True";
              changed_by = actor;
              changed_at = now;
              actor_type = human;
            }
              ∷ [];
      })
unfolding cascade_approve_subtasks approve
cascade_approved c actor now s root i t works under stored open_still =
    let d = sweep_from-IsDone c actor now s root in
    let seen = IsDone-Under c actor now s root (sweep_from c actor now s root) d i under in
    let marked = d.marked.marks i t seen stored open_still in
    let ms = (sweep_from c actor now s root).mutated in
    let (_, _, _, got) =
      gather-Stored c now s ms (touch now (approve actor now t)) (mutated-Unique c actor now s root)
        (all_saved c now s ms (approve actor now t) works marked) in
    subst (λ z. c.get (gather_saves c now s ms).1 z ≡ some (touch now (approve actor now t)))
      (c.get_id s i t stored) got
    ∙ ap (λ (z : Task). some z) (approve-made actor now t open_still)

-- Every document that is no live descendant of the task, or that was approved before, is as it
-- was, whichever writes raise.
pub cascade_others :
    (c : Collection) (actor : String) (now : ℕ) (s : c.Store) (root i : String) (t : Task)
    → c.get s i ≡ some t
    → (¬ Under c actor now s root i) ⊎ (t.approved ≡ true)
    → c.get (cascade_approve_subtasks c actor now s root).1 i ≡ some t
unfolding cascade_approve_subtasks approve
cascade_others c actor now s root i t stored outside =
    elim (gather_cases c now s (mutated c actor now s root) i) [
      | inl same ↦ same ∙ stored
      | inr (m, listed, at, wrote) ↦
          let d = (sweep_from-IsDone c actor now s root).marked in
          let (u, e, found, open_still, seen) = d.made m listed in
          let u_at : u.id ≡ i = sym (ap (λ (z : Task). z.id) e) ∙ at in
          let one : u ≡ t = some_injective (sym found ∙ ap (c.get s) u_at ∙ stored) in
          elim outside [
            | inl never ↦ absurd (never (subst (Under c actor now s root) u_at (d.under u.id seen)))
            | inr approved ↦ cc (approved, open_still, ap (λ (z : Task). z.approved) one)
          ]
    ]

-- Whichever writes raise, every document is as it was, or as `approve` makes it where it was not
-- approved.
pub cascade_kept :
    (c : Collection) (actor : String) (now : ℕ) (s : c.Store) (root i : String) (t' : Task)
    → c.get (cascade_approve_subtasks c actor now s root).1 i ≡ some t'
    → (t : Task) × (c.get s i ≡ some t) × ((t' ≡ t) ⊎ (t' ≡ touch now (approve actor now t)))
unfolding cascade_approve_subtasks approve
cascade_kept c actor now s root i t' stored =
    elim (gather_cases c now s (mutated c actor now s root) i) [
      | inl same ↦ (t', sym same ∙ stored, inl refl)
      | inr (m, listed, at, wrote) ↦
          let d = (sweep_from-IsDone c actor now s root).marked in
          let (u, e, found, open_still, seen) = d.made m listed in
          let u_at : u.id ≡ i = sym (ap (λ (z : Task). z.id) e) ∙ at in
          (
            u,
            subst (λ z. c.get s z ≡ some u) u_at found,
            inr (some_injective (sym stored ∙ wrote) ∙ ap (touch now) e),
          )
    ]

-- Each task that is returned is stored as it is returned, approved and with `needs_detail` off, and
-- is a live descendant of the task that was not approved before, whichever writes raise.
pub cascade_saved :
    (c : Collection) (actor : String) (now : ℕ) (s : c.Store) (root : String) (m : Task)
    → Elem m (cascade_approve_subtasks c actor now s root).0.saved
    → (c.get (cascade_approve_subtasks c actor now s root).1 m.id ≡ some m)
      × (m.approved ≡ true)
      × (m.needs_detail ≡ false)
      × Under c actor now s root m.id
      × ((t : Task) × (c.get s m.id ≡ some t) × (t.approved ≡ false))
unfolding cascade_approve_subtasks approve
cascade_saved c actor now s root m listed =
    let d = (sweep_from-IsDone c actor now s root).marked in
    let (u, among, e, got) =
      gather-Stored c now s (mutated c actor now s root) m (mutated-Unique c actor now s root)
        listed in
    let (t, made, found, open_still, seen) = d.made u among in
    let at : t.id ≡ m.id = sym (ap (λ (z : Task). z.id) (e ∙ ap (touch now) made)) in
    (
      got,
      ap (λ (z : Task). z.approved) (e ∙ ap (touch now) made),
      ap (λ (z : Task). z.needs_detail) (e ∙ ap (touch now) made),
      subst (Under c actor now s root) at (d.under t.id seen),
      (t, subst (λ z. c.get s z ≡ some t) at found, open_still),
    )
