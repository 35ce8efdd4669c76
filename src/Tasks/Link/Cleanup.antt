-- ===== src/Tasks/Link/Cleanup.antt =====
-- `cleanup_dependents` takes a task out of every `blocked_by` list of its project.
use claude_todo.Prelude.{
  ℕ, String, ◌≡◌, refl, sym, ap, ◌∙◌, subst, ◌⊎◌, inl, inr, true, false, some, List, [], ◌∷◌, arith,
  nat_eq, string_eq, Bool-cases, some_injective, Elem, contains, contains-without, beq_refl,
}
use claude_todo.Tasks.Model.{Task, touch}
use claude_todo.Tasks.Collection.{Collection, gather_saves}
use claude_todo.Tasks.Gather.{Unique, gather_cases, gather-Stored, done_saved}
use claude_todo.Tasks.Graph.{live_in}
use claude_todo.Tasks.Link.{
  ok, drop_blocker, depends_on, list_dependents, map_tasks, cleanup_dependents,
}

Elem-map_tasks :
    (c : Collection) (f : Task → Task) (t : Task) (ts : List Task)
    → Elem t ts
    → Elem (f t) (map_tasks c f ts)
Elem-map_tasks c f t [] m = elim m [ ]
Elem-map_tasks c f t (u ∷ us) (inl e) = inl (ap f e)
Elem-map_tasks c f t (u ∷ us) (inr m) = inr (Elem-map_tasks c f t us m)

map_tasks-Elem :
    (c : Collection) (f : Task → Task) (m : Task) (ts : List Task)
    → Elem m (map_tasks c f ts)
    → (t : Task) × Elem t ts × (m ≡ f t)
map_tasks-Elem c f m [] h = elim h [ ]
map_tasks-Elem c f m (u ∷ us) h = elim h [
  | inl e ↦ (u, inl refl, e)
  | inr later ↦ let (t, at, e) = map_tasks-Elem c f m us later in (t, inr at, e)
]

module _ (c : Collection) (now : ℕ) (task_id project_id changed_by : String) (s : c.Store) where
  abbrev dependents : List Task
  dependents = c.find s (depends_on c project_id task_id)

  abbrev drop : Task → Task
  drop = drop_blocker c changed_by now task_id

  abbrev dropped : List Task
  dropped = map_tasks c drop dependents

  dropped_from :
      (m : Task)
      → Elem m dropped
      → (t : Task) × (c.get s t.id ≡ some t)
        × (depends_on c project_id task_id t ≡ true)
        × (m ≡ drop t)
  dropped_from m h =
      let (t, at, e) = map_tasks-Elem c drop m dependents h in
      let (stored, fits) = c.find_sound s (depends_on c project_id task_id) t at in
      (t, stored, fits, e)

  dropped-Unique : Unique c now dropped
  dropped-Unique a b ha hb same =
      let (t, st, _, ea) = dropped_from a ha in
      let (u, su, _, eb) = dropped_from b hb in
      let ids : t.id ≡ u.id =
        sym (ap (λ (z : Task). z.id) ea) ∙ same ∙ ap (λ (z : Task). z.id) eb in
      ea ∙ ap drop (some_injective (sym st ∙ ap (c.get s) ids ∙ su)) ∙ sym eb

  abbrev cleaned : c.Store
  cleaned = (cleanup_dependents c now task_id project_id changed_by s).1

  dropped_clear :
      (m t : Task) → Elem m dropped → t ≡ touch now m → contains t.blocked_by task_id ≡ false
  dropped_clear m t h e =
      let (u, _, _, made) = dropped_from m h in
      ap (λ (z : Task). contains z.blocked_by task_id) (e ∙ ap (touch now) made)
      ∙ contains-without task_id task_id u.blocked_by
      ∙ rw (beq_refl task_id)

-- When `cleanup_dependents` returns, no live task of the project lists the task in `blocked_by`.
pub cleanup_clears :
    (c : Collection) (now : ℕ) (task_id project_id changed_by : String) (s : c.Store)
    (tasks : List Task) (i : String) (t : Task)
    → (cleanup_dependents c now task_id project_id changed_by s).0 ≡ ok tasks
    → c.get (cleanup_dependents c now task_id project_id changed_by s).1 i ≡ some t
    → live_in project_id t ≡ true
    → contains t.blocked_by task_id ≡ false
unfolding cleanup_dependents list_dependents
cleanup_clears c now task_id project_id changed_by s tasks i t h stored live =
    let ms = dropped c now task_id project_id changed_by s in
    elim (gather_cases c now s ms i) [
      | inr (m, listed, at, wrote) ↦
          dropped_clear c now task_id project_id changed_by s m t listed
            (some_injective (sym stored ∙ wrote))
      | inl same ↦ elim (Bool-cases (contains t.blocked_by task_id)) [
        | inr clear ↦ clear
        | inl still ↦
            let before : c.get s i ≡ some t = sym same ∙ stored in
            let listed : Elem t (c.find s (depends_on c project_id task_id)) =
              c.find_complete s (depends_on c project_id task_id) i t before
                (ground (arith, still, live)) in
            let m = drop c now task_id project_id changed_by s t in
            let among =
              Elem-map_tasks c (drop c now task_id project_id changed_by s) t
                (c.find s (depends_on c project_id task_id)) listed in
            let (_, _, _, got) =
              gather-Stored c now s ms (touch now m)
                (dropped-Unique c now task_id project_id changed_by s)
                (done_saved c now s ms m (ground arith) among) in
            dropped_clear c now task_id project_id changed_by s m t among (
              some_injective (
                sym stored
                ∙ ap (c.get (gather_saves c now s ms).1) (sym (c.get_id s i t before))
                ∙ got))
      ]
    ]

-- A document that does not list the task in `blocked_by`, or that is no live task of the project,
-- is as it was after `cleanup_dependents`, whichever writes raise.
pub cleanup_others :
    (c : Collection) (now : ℕ) (task_id project_id changed_by : String) (s : c.Store) (i : String)
    (t : Task)
    → c.get s i ≡ some t
    → (contains t.blocked_by task_id ≡ false) ⊎ (live_in project_id t ≡ false)
    → c.get (cleanup_dependents c now task_id project_id changed_by s).1 i ≡ some t
unfolding cleanup_dependents list_dependents
cleanup_others c now task_id project_id changed_by s i t stored other =
    elim (gather_cases c now s (dropped c now task_id project_id changed_by s) i) [
      | inl same ↦ same ∙ stored
      | inr (m, listed, at, wrote) ↦
          let (u, su, fits, made) = dropped_from c now task_id project_id changed_by s m listed in
          let u_at : u.id ≡ i = sym (ap (λ (z : Task). z.id) made) ∙ at in
          let one : u ≡ t = some_injective (sym su ∙ ap (c.get s) u_at ∙ stored) in
          let fits_t : depends_on c project_id task_id t ≡ true =
            subst (λ z. depends_on c project_id task_id z ≡ true) one fits in
          absurd (elim other [
            | inl unlisted ↦ ground (arith, unlisted, fits_t)
            | inr elsewhere ↦ ground (arith, elsewhere, fits_t)
          ])
    ]
