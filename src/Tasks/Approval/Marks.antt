-- ===== src/Tasks/Approval/Marks.antt =====
-- What one layer of `cascade_approve_subtasks` marks.
use claude_todo.Prelude.{
  ℕ, ◌+◌, ◌≤◌, String, ◌≡◌, refl, sym, ap, ◌∙◌, subst, ◌⊎◌, inl, inr, false, Option, some, List, [],
  ◌∷◌, arith, nat_eq, string_eq, Bool-cases, some_injective, length, length-append, Elem,
  Elem-append_left, Elem-append_right, Elem-append, contains, contains-Elem, missing, missing-lt,
}
use claude_todo.Tasks.Model.{Task}
use claude_todo.Tasks.Approval.{Sweep, approve, mark, visit_child, visit_children}

-- `Under v` says that `v` is a live descendant, and `stored` gives the document of an id.
module _ (actor : String) (now : ℕ) (stored : String → Option Task) (Under : String → Type 0)
    (universe : List String) where
  pub record IsMarked (w : Sweep) : Type 0 where
    pub under : (v : String) → Elem v w.visited → Under v
    pub queued : (v : String) → Elem v w.next_layer → Elem v w.visited
    pub marks :
        (v : String) (t : Task)
        → Elem v w.visited
        → stored v ≡ some t
        → t.approved ≡ false
        → Elem (approve actor now t) w.mutated
    pub made :
        (m : Task)
        → Elem m w.mutated
        → (t : Task) × (m ≡ approve actor now t)
          × (stored t.id ≡ some t)
          × (t.approved ≡ false)
          × Elem t.id w.visited

  pub record Grows (w w' : Sweep) : Type 0 where
    pub keeps : (v : String) → Elem v w.visited → Elem v w'.visited
    pub queues : (v : String) → Elem v w.next_layer → Elem v w'.next_layer
    pub origin : (v : String) → Elem v w'.visited → Elem v w.visited ⊎ Elem v w'.next_layer
    pub budget :
        missing universe w'.visited + length w'.next_layer
        ≤ missing universe w.visited + length w.next_layer

  Grows-refl : (w : Sweep) → Grows w w
  Grows-refl w = record {
    keeps = λ v h. h;
    queues = λ v h. h;
    origin = λ v h. inl h;
    budget = omega arith;
  }

  Grows-trans : (w w' w'' : Sweep) → Grows w w' → Grows w' w'' → Grows w w''
  Grows-trans w w' w'' g h = record {
    keeps = λ v m. h.keeps v (g.keeps v m);
    queues = λ v m. h.queues v (g.queues v m);
    origin = λ v m. elim (h.origin v m) [
      | inr q ↦ inr q
      | inl old ↦ elim (g.origin v old) [ inl older ↦ inl older | inr q ↦ inr (h.queues v q) ]
    ];
    budget = omega (arith, g.budget, h.budget);
  }

  module _ (child : Task) (w : Sweep) (i : IsMarked w)
      (new : contains w.visited child.id ≡ false) where
    mutated_keeps : (m : Task) → Elem m w.mutated → Elem m (mark actor now child w).mutated
    mutated_keeps m h = elim (Bool-cases child.approved) [
      | inl done ↦ simp done h
      | inr open_still ↦ simp open_still (Elem-append_left m w.mutated _ h)
    ]

    mark_made :
        stored child.id ≡ some child
        → (m : Task) → Elem m (mark actor now child w).mutated
        → (t : Task) × (m ≡ approve actor now t)
          × (stored t.id ≡ some t)
          × (t.approved ≡ false)
          × Elem t.id (mark actor now child w).visited
    mark_made at m h = elim (Bool-cases child.approved) [
      | inl done ↦ old (i.made m (simp done at h))
      | inr open_still ↦
          elim (Elem-append m w.mutated (approve actor now child ∷ []) (simp open_still at h)) [
            | inl before ↦ old (i.made m before)
            | inr (inl e) ↦ (child, e, at, open_still, inl refl)
            | inr (inr nothing) ↦ elim nothing [ ]
          ]
    ]
      where
        old :
            ((t : Task) × (m ≡ approve actor now t)
              × (stored t.id ≡ some t)
              × (t.approved ≡ false)
              × Elem t.id w.visited)
            → (t : Task) × (m ≡ approve actor now t)
              × (stored t.id ≡ some t)
              × (t.approved ≡ false)
              × Elem t.id (mark actor now child w).visited
        old (t, e, found, open_still, seen) = (t, e, found, open_still, inr seen)

    mark-IsMarked :
        stored child.id ≡ some child → Under child.id → IsMarked (mark actor now child w)
    mark-IsMarked at under = record {
      under = λ v m. elim m [ inl e ↦ subst Under (sym e) under | inr old ↦ i.under v old ];
      queued = λ v m. elim (Elem-append v w.next_layer (child.id ∷ []) m) [
        | inl old ↦ inr (i.queued v old)
        | inr (inl e) ↦ inl e
        | inr (inr nothing) ↦ elim nothing [ ]
      ];
      marks = λ v t m found open_still. elim m [
        | inr old ↦ mutated_keeps (approve actor now t) (i.marks v t old found open_still)
        | inl e ↦
            let same : child ≡ t =
              some_injective (sym at ∙ subst (λ z. stored z ≡ some t) e found) in
            simp (ap (λ (u : Task). u.approved) same ∙ open_still) (
              Elem-append_right (approve actor now t) w.mutated _
                (inl (ap (approve actor now) (sym same))))
      ];
      made = λ m h. mark_made at m h;
    }

    mark-Grows : Elem child.id universe → Grows w (mark actor now child w)
    mark-Grows listed = record {
      keeps = λ v m. inr m;
      queues = λ v m. Elem-append_left v w.next_layer (child.id ∷ []) m;
      origin = λ v m. elim m [
        | inl e ↦ inr (Elem-append_right v w.next_layer (child.id ∷ []) (inl e))
        | inr old ↦ inl old
      ];
      budget = omega (
        arith,
        missing-lt universe w.visited child.id listed new,
        length-append w.next_layer (child.id ∷ []),
      );
    }

  visit_child-IsMarked :
      (child : Task) (w : Sweep)
      → IsMarked w
      → stored child.id ≡ some child
      → Under child.id
      → IsMarked (visit_child actor now child w)
  visit_child-IsMarked child w i at under = elim (Bool-cases (contains w.visited child.id)) [
    | inl old ↦ rw old i
    | inr new ↦ rw new (mark-IsMarked child w i new at under)
  ]

  visit_child-Grows :
      (child : Task) (w : Sweep)
      → IsMarked w
      → Elem child.id universe
      → Grows w (visit_child actor now child w)
  visit_child-Grows child w i listed = elim (Bool-cases (contains w.visited child.id)) [
    | inl old ↦ rw old (Grows-refl w)
    | inr new ↦ rw new (mark-Grows child w i new listed)
  ]

  visit_child-visited :
      (child : Task) (w : Sweep) → Elem child.id (visit_child actor now child w).visited
  visit_child-visited child w = elim (Bool-cases (contains w.visited child.id)) [
    | inl old ↦ rw old (contains-Elem w.visited child.id old)
    | inr new ↦ rw new (inl refl)
  ]

  pub record IsLayer (children : List Task) (w w' : Sweep) : Type 0 where
    pub marked : IsMarked w'
    pub grows : Grows w w'
    pub covers : (child : Task) → Elem child children → Elem child.id w'.visited

  pub visit_children-IsLayer :
      (children : List Task) (w : Sweep)
      → IsMarked w
      → ((child : Task)
          → Elem child children
          → (stored child.id ≡ some child) × Under child.id × Elem child.id universe)
      → IsLayer children w (visit_children actor now children w)
  unfolding visit_children
  visit_children-IsLayer [] w i h = record {
    marked = i;
    grows = Grows-refl w;
    covers = λ child m. elim m [ ];
  }
  visit_children-IsLayer (child ∷ children) w i h =
      let w' = visit_child actor now child w in
      let (at, under, listed) = h child (inl refl) in
      let rest =
        visit_children-IsLayer children (visit_child actor now child w)
          (visit_child-IsMarked child w i at under) (λ u m. h u (inr m)) in
      record {
        marked = rest.marked;
        grows = Grows-trans w w' _ (visit_child-Grows child w i listed) rest.grows;
        covers = λ u m. elim m [
          | inl e ↦
              rest.grows.keeps u.id
                (subst (λ (z : Task). Elem z.id w'.visited) (sym e) (visit_child-visited child w))
          | inr later ↦ rest.covers u later
        ];
      }
