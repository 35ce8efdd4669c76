-- ===== src/Tasks/Approval/Sweeps.antt =====
-- The walk of `cascade_approve_subtasks` marks the live descendants, and nothing else.
use claude_todo.Prelude.{
  ℕ, zero, suc, ◌+◌, ◌<◌, String, ◌≡◌, refl, sym, subst, ◌⊎◌, inl, inr, true, false, some, List, [],
  ◌∷◌, arith, nat_eq, string_eq, Option-cases, length, some_left, some_left-le, Elem, contains,
  contains-Elem, Elem-contains, missing, missing-le,
}
use claude_todo.Tasks.Model.{Task}
use claude_todo.Tasks.Collection.{Collection, ids, Elem-ids, length-ids}
use claude_todo.Tasks.Graph.{HasChild, Reach, Reach₊, here, next}
use claude_todo.Tasks.Approval.{Sweep, visit_children, child_query, live_tasks, sweep, sweep_from}
use claude_todo.Tasks.Approval.Marks.{IsMarked, IsLayer, visit_children-IsLayer}

module _ (c : Collection) (actor : String) (now : ℕ) (s : c.Store) (root : String) where
  abbrev Down : String → String → Type 0
  Down = HasChild c s

  abbrev pub Under : String → Type 0
  Under v = Reach₊ (HasChild c s) root v

  abbrev pub universe : List String
  universe = ids (live_tasks c actor now s)

  abbrev pub IsMarkedAt : Sweep → Type 0
  IsMarkedAt = IsMarked actor now (c.get s) Under universe

  child_query_parent :
      (pending : List String) (t : Task)
      → child_query pending t ≡ true
      → (p : String) × (t.parent_task_id ≡ some p)
        × (contains pending p ≡ true)
        × (t.is_deleted ≡ false)
  child_query_parent pending t h = elim (Option-cases t.parent_task_id) [
    | inl top ↦ absurd (cc (simp top at h))
    | inr (p, at) ↦ (p, at, ground (arith, at), ground (arith, at))
  ]

  layer_sound :
      (pending : List String)
      → ((v : String) → Elem v pending → Reach Down root v)
      → (child : Task) → Elem child (c.find s (child_query pending))
      → (c.get s child.id ≡ some child) × Under child.id × Elem child.id universe
  layer_sound pending from child m =
      let (stored, fits) = c.find_sound s (child_query pending) child m in
      let (p, at, among, live) = child_query_parent pending child fits in
      (
        stored,
        (
          p,
          from p (contains-Elem pending p among),
          record { task = child; stored = stored; live = live; parent = at },
        ),
        Elem-ids child _ (c.find_complete s _ child.id child stored (rw live)),
      )

  layer_complete :
      (pending : List String) (a b : String)
      → Elem a pending
      → Down a b
      → (child : Task) × Elem child (c.find s (child_query pending)) × (child.id ≡ b)
  layer_complete pending a b m e = (
    e.task,
    c.find_complete s (child_query pending) b e.task e.stored
        (simp (e.parent, e.live, Elem-contains pending a m)),
    c.get_id s b e.task e.stored,
  )

  abbrev Closed : List String → List String → Type 0
  Closed pending visited =
      (v : String)
      → (v ≡ root) ⊎ Elem v visited
      → Elem v pending ⊎ ((b : String) → Down v b → Elem b visited)

  Closed-layer :
      (pending : List String) (w w' : Sweep)
      → Closed pending w.visited
      → IsLayer actor now (c.get s) Under universe (c.find s (child_query pending)) w w'
      → Closed w'.next_layer w'.visited
  Closed-layer pending w w' closed l v m = elim before [
    | inr queued ↦ inl queued
    | inl old ↦ elim (closed v old) [
      | inl now_read ↦ inr (λ b e.
          let (child, listed, at) = layer_complete pending v b now_read e in
          subst (λ z. Elem z w'.visited) at (l.covers child listed))
      | inr out ↦ inr (λ b e. l.grows.keeps b (out b e))
    ]
  ]
    where
      before : ((v ≡ root) ⊎ Elem v w.visited) ⊎ Elem v w'.next_layer
      before = elim m [
        | inl e ↦ inl (inl e)
        | inr seen ↦ elim (l.grows.origin v seen) [
          | inl old ↦ inl (inr old)
          | inr queued ↦ inr queued
        ]
      ]

  pub record IsDone (w : Sweep) : Type 0 where
    pub marked : IsMarkedAt w
    pub closed :
        (v : String) → (v ≡ root) ⊎ Elem v w.visited → (b : String) → Down v b → Elem b w.visited

  sweep-IsDone :
      (fuel : ℕ) (pending : List String) (w : Sweep)
      → IsMarkedAt w
      → ((v : String) → Elem v pending → Reach Down root v)
      → Closed pending w.visited
      → missing universe w.visited + some_left pending < fuel
      → IsDone (sweep c actor now fuel s pending w)
  unfolding sweep
  sweep-IsDone zero pending w i from closed left = elim left [ ]
  sweep-IsDone (suc fuel) [] w i from closed left = record {
    marked = i;
    closed = λ v m. elim (closed v m) [ inl nowhere ↦ elim nowhere [ ] | inr out ↦ out ];
  }
  sweep-IsDone (suc fuel) (p ∷ ps) w i from closed left =
      let w₀ = record w { next_layer = [] } in
      let l =
        visit_children-IsLayer actor now (c.get s) Under universe (c.find s (child_query (p ∷ ps)))
          w₀
          (record { under = i.under; queued = λ v m. elim m [ ]; marks = i.marks; made = i.made })
          (layer_sound (p ∷ ps) from) in
      let w' = visit_children actor now (c.find s (child_query (p ∷ ps))) w₀ in
      sweep-IsDone fuel w'.next_layer w' l.marked
        (λ v m. let (a, r, e) = l.marked.under v (l.marked.queued v m) in next r e)
        (Closed-layer (p ∷ ps) w₀ w' closed l)
        (omega (arith, l.grows.budget, some_left-le w'.next_layer))

  pub sweep_from-IsDone : IsDone (sweep_from c actor now s root)
  unfolding sweep_from
  sweep_from-IsDone =
      sweep-IsDone (length (live_tasks c actor now s) + 2) (root ∷ [])
        (record { visited = []; next_layer = []; mutated = [] })
        (record {
          under = λ v m. elim m [ ];
          queued = λ v m. elim m [ ];
          marks = λ v t m. elim m [ ];
          made = λ m h. elim h [ ];
        })
        (λ v m. elim m [
          | inl e ↦ subst (Reach Down root) (sym e) here
          | inr nothing ↦ elim nothing [ ]
        ])
        (λ v m. elim m [ inl e ↦ inl (inl e) | inr nothing ↦ elim nothing [ ] ])
        (omega (arith, missing-le universe [], length-ids (live_tasks c actor now s)))

  -- Every live descendant has been visited.
  pub IsDone-Under : (w : Sweep) → IsDone w → (v : String) → Under v → Elem v w.visited
  IsDone-Under w d v (a, r, e) = d.closed a (reached r) v e
    where
      reached : {b : String} → Reach Down root b → (b ≡ root) ⊎ Elem b w.visited
      reached here = inl refl
      reached (next {b = m} {d = z} q f) = inr (d.closed m (reached q) z f)
