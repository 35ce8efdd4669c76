-- ===== src/Tasks/Parents/Chain.antt =====
-- `has_parent_cycle` decides whether the task is an ancestor of the new parent.
use mathlib.Core.List.{reverse-append}
use claude_todo.Prelude.{
  ℕ, zero, suc, ◌+◌, ◌<◌, String, ◌≡◌, refl, sym, ap, ◌∙◌, subst, ◌↔◌, ◌⊎◌, inl, inr, true, false,
  Option, none, some, List, [], ◌∷◌, ◌++◌, reverse, arith, nat_eq, string_eq, ◌==◌, Bool-cases,
  Option-cases, some_injective, length, Elem, contains, contains-Elem, Elem-contains, missing,
  missing-le, missing-lt,
}
use claude_todo.Tasks.Model.{Task}
use claude_todo.Tasks.Collection.{Collection, ids, Elem-ids, length-ids}
use claude_todo.Tasks.Graph.{live_in, HasParent, Reach, here, next, IsTrail}
use claude_todo.Tasks.Parents.{current_query, next_parent, climb, has_parent_cycle}

-- A step down, from a task to one that has it as its parent.
abbrev pub IsChildOf : (c : Collection) → c.Store → String → String → String → Type 0
IsChildOf c s project_id a b = HasParent c s project_id b a

module _ (c : Collection) (s : c.Store) (project task_id new_parent : String) where
  abbrev Up : String → String → Type 0
  Up = HasParent c s project

  abbrev Down : String → String → Type 0
  Down = IsChildOf c s project

  abbrev universe : List String
  universe = ids (c.find s (live_in project))

  abbrev pub Found : Option (List String) → Type 0
  Found (some path) = IsTrail Down task_id path new_parent
  Found none = ¬ Reach Up new_parent task_id

  Closed-Reach :
      (visited : List String) (b : String)
      → ((v w : String) → Elem v visited → Up v w → Elem w visited)
      → Elem new_parent visited
      → Reach Up new_parent b
      → Elem b visited
  Closed-Reach visited b closed start here = start
  Closed-Reach visited b closed start (next {b = m} r e) =
      closed m b (Closed-Reach visited m closed start r) e

  Up-Elem : (a b : String) → Up a b → Elem a universe
  Up-Elem a b e =
      subst (λ z. Elem z universe) (c.get_id s a e.task e.stored)
        (Elem-ids e.task _ (c.find_complete s (live_in project) a e.task e.stored e.live))

  next_parent-some :
      (current parent : String)
      → next_parent c project task_id s current ≡ some parent
      → Up current parent
  unfolding next_parent
  next_parent-some current parent h =
      go (c.find s (current_query c project task_id current))
        (c.find_sound s (current_query c project task_id current)) h
    where
      go :
          (l : List Task)
          → ((t : Task)
              → Elem t l
              → (c.get s t.id ≡ some t) × (current_query c project task_id current t ≡ true))
          → elim (elim l as (λ _. Option Task) [ [] ↦ none | t ∷ _ ↦ some t ]) [
            | none ↦ none
            | some doc ↦ doc.parent_task_id
          ]
            ≡ some parent
          → Up current parent
      go [] sound k = cc
      go (t ∷ l) sound k =
          let (stored, fits) = sound t (inl refl) in
          let at : t.id ≡ current = (string_eq.beq_iff t.id current).0 (ground arith) in
          record {
            task = t;
            stored = subst (λ z. c.get s z ≡ some t) at stored;
            live = ground arith;
            parent = k;
          }

  next_parent-none :
      (current parent : String)
      → next_parent c project task_id s current ≡ none
      → ¬ Up current parent
  unfolding next_parent
  next_parent-none current parent h e =
      let at : (e.task.id == current) ≡ true =
        (string_eq.beq_iff e.task.id current).1 (c.get_id s current e.task e.stored) in
      go (c.find s (current_query c project task_id current))
        (c.find_sound s (current_query c project task_id current))
        (c.find_complete s (current_query c project task_id current) current e.task e.stored
          (ground (arith, at, e.live)))
        h
    where
      go :
          (l : List Task)
          → ((t : Task)
              → Elem t l
              → (c.get s t.id ≡ some t) × (current_query c project task_id current t ≡ true))
          → Elem e.task l
          → elim (elim l as (λ _. Option Task) [ [] ↦ none | t ∷ _ ↦ some t ]) [
            | none ↦ none
            | some doc ↦ doc.parent_task_id
          ]
            ≡ none
          → ⊥
      go [] sound m k = m
      go (t ∷ l) sound m k =
          let (stored, fits) = sound t (inl refl) in
          let at : t.id ≡ current = (string_eq.beq_iff t.id current).0 (ground arith) in
          let same : e.task ≡ t =
            some_injective (sym e.stored ∙ subst (λ z. c.get s z ≡ some t) at stored) in
          cc (sym k ∙ ap (λ (u : Task). u.parent_task_id) (sym same) ∙ e.parent)

  record IsClimb (current : String) (visited chain : List String) : Type 0 where
    misses : contains visited task_id ≡ false
    closed : (v w : String) → Elem v visited → Up v w → Elem w visited ⊎ (w ≡ current)
    start : Elem new_parent visited ⊎ (new_parent ≡ current)
    trail : IsTrail Down current (current ∷ reverse chain) new_parent

  -- The walk ends on an id that closes the set of ids read.
  IsClimb-done :
      (current : String) (visited chain : List String) (all : List String)
      → IsClimb current visited chain
      → ((v : String) → Elem v visited → Elem v all)
      → Elem current all
      → ((v : String)
          → Elem v all
          → Elem v visited ⊎ ((v ≡ current) × ((w : String) → ¬ Up current w)))
      → contains all task_id ≡ false
      → ¬ Reach Up new_parent task_id
  IsClimb-done current visited chain all i grow at only misses r =
      cc (misses, Elem-contains all task_id (Closed-Reach all task_id closed first r))
    where
      first : Elem new_parent all
      first = elim i.start [
        | inl m ↦ grow new_parent m
        | inr e ↦ subst (λ z. Elem z all) (sym e) at
      ]

      closed : (v w : String) → Elem v all → Up v w → Elem w all
      closed v w m e = elim (only v m) [
        | inr (same, stops) ↦ absurd (stops w (subst (λ z. Up z w) same e))
        | inl old ↦ elim (i.closed v w old e) [
          | inl seen ↦ grow w seen
          | inr now ↦ subst (λ z. Elem z all) (sym now) at
        ]
      ]

  Up-unique : (a b b' : String) → Up a b → Up a b' → b' ≡ b
  Up-unique a b b' e e' = some_injective (
      sym e'.parent
      ∙ ap (λ (t : Task). t.parent_task_id) (some_injective (sym e'.stored ∙ e.stored))
      ∙ e.parent)

  IsClimb-step :
      (current parent : String) (visited chain : List String)
      → IsClimb current visited chain
      → Up current parent
      → (current == task_id) ≡ false
      → IsClimb parent (current ∷ visited) (chain ++ current ∷ [])
  IsClimb-step current parent visited chain i up other = record {
    misses = rw other i.misses;
    closed = λ v w m e. elim m [
      | inl same ↦ inr (Up-unique current parent w up (subst (λ z. Up z w) same e))
      | inr old ↦ elim (i.closed v w old e) [ inl seen ↦ inl (inr seen) | inr now ↦ inl (inl now) ]
    ];
    start = elim i.start [ inl seen ↦ inl (inr seen) | inr now ↦ inl (inl now) ];
    trail = rw (reverse-append chain (current ∷ [])) (refl, up, i.trail);
  }

  climb-Found :
      (fuel : ℕ) (current : String) (visited chain : List String)
      → IsClimb current visited chain
      → missing universe visited < fuel
      → Found (climb c project task_id fuel s current visited chain)
  unfolding climb
  climb-Found zero current visited chain i left = elim left [ ]
  climb-Found (suc fuel) current visited chain i left =
      elim (Bool-cases (contains visited current)) [
        | inl seen ↦ rw seen (
            IsClimb-done current visited chain visited i (λ v m. m)
              (contains-Elem visited current seen) (λ v m. inl m) i.misses)
        | inr new ↦ elim (Bool-cases (current == task_id)) [
          | inl at ↦
              let e : current ≡ task_id = (string_eq.beq_iff current task_id).0 at in
              rw new (
                rw at (
                  rw (reverse-append chain (current ∷ []))
                    (subst (λ z. IsTrail Down z (current ∷ reverse chain) new_parent) e i.trail)))
          | inr other ↦ elim (Option-cases (next_parent c project task_id s current)) [
            | inl top ↦ rw new (
                rw other (
                  rw (top, climb)
                    (IsClimb-done current visited chain (current ∷ visited) i (λ v m. inr m)
                      (inl refl)
                      (λ v m. elim m [
                        | inl e ↦ inr (e, λ w. next_parent-none current w top)
                        | inr old ↦ inl old
                      ])
                      (rw other i.misses))))
            | inr (parent, up) ↦ rw new (
                rw other (
                  rw (up, climb)
                    (climb-Found fuel parent (current ∷ visited) (chain ++ current ∷ [])
                      (IsClimb-step current parent visited chain i
                        (next_parent-some current parent up) other)
                      (omega (
                        arith,
                        missing-lt universe visited current
                            (Up-Elem current parent (next_parent-some current parent up)) new,
                      )))))
          ]
        ]
      ]

  -- `has_parent_cycle` gives a path from the task down to the new parent, each id a live task of the
  -- project that has the id before it as its parent, or `None` where the task is no ancestor of the
  -- new parent, nor the new parent itself, along the parents of live tasks of the project.
  pub has_parent_cycle-Found : Found (has_parent_cycle c project task_id s new_parent)
  unfolding has_parent_cycle
  has_parent_cycle-Found = elim (Bool-cases (task_id == new_parent)) [
    | inl same ↦ rw same (refl, (string_eq.beq_iff task_id new_parent).0 same)
    | inr other ↦ rw other (
        climb-Found (length (c.find s (live_in project)) + 1) new_parent [] []
          (record {
            misses = refl;
            closed = λ v w m e. elim m [ ];
            start = inr refl;
            trail = (refl, refl);
          })
          (omega (arith, missing-le universe [], length-ids (c.find s (live_in project)))))
  ]

-- When `has_parent_cycle` returns a path, that path runs from the task down to the new parent, each
-- id a live task of the project that has the id before it as its parent.
pub has_parent_cycle-IsTrail :
    (c : Collection) (s : c.Store) (project_id task_id new_parent_id : String) (path : List String)
    → has_parent_cycle c project_id task_id s new_parent_id ≡ some path
    → IsTrail (IsChildOf c s project_id) task_id path new_parent_id
has_parent_cycle-IsTrail c s project_id task_id new_parent_id path h =
    subst (Found c s project_id task_id new_parent_id) h
      (has_parent_cycle-Found c s project_id task_id new_parent_id)

-- `has_parent_cycle` returns `None` exactly when the task is no ancestor of the new parent, nor the
-- new parent itself, along the parents of live tasks of the project.
pub has_parent_cycle-none_iff :
    (c : Collection) (s : c.Store) (project_id task_id new_parent_id : String)
    → (has_parent_cycle c project_id task_id s new_parent_id ≡ none)
      ↔ (¬ Reach (HasParent c s project_id) new_parent_id task_id)
has_parent_cycle-none_iff c s project_id task_id new_parent_id =
    let found = has_parent_cycle-Found c s project_id task_id new_parent_id in
    (
      λ h. subst (Found c s project_id task_id new_parent_id) h found,
      λ absent. go (has_parent_cycle c project_id task_id s new_parent_id) absent found,
    )
  where
    climbs :
        (a d : String) (path : List String)
        → IsTrail (IsChildOf c s project_id) a path d
        → Reach (HasParent c s project_id) d a
    climbs a d [] h = elim h [ ]
    climbs a d (x ∷ []) h = subst (λ z. Reach (HasParent c s project_id) z a) (h.0 ∙ h.1) here
    climbs a d (x ∷ y ∷ r) h =
        subst (Reach (HasParent c s project_id) d) (sym h.0) (next (climbs y d (y ∷ r) h.2) h.1)

    go :
        (r : Option (List String))
        → ¬ Reach (HasParent c s project_id) new_parent_id task_id
        → Found c s project_id task_id new_parent_id r
        → r ≡ none
    go none absent h = refl
    go (some path) absent h = absurd (absent (climbs task_id new_parent_id path h))
