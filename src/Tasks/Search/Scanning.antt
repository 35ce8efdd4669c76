-- ===== src/Tasks/Search/Scanning.antt =====
-- What one layer of `has_cycle` does to its variables.
use claude_todo.Prelude.{
  ◌+◌, ◌≤◌, String, ◌≡◌, refl, sym, ap, subst, ◌⊎◌, inl, inr, false, List, [], ◌∷◌, arith, ◌==◌,
  string_eq, Elem, length, length-append, contains, contains-Elem, Elem-contains, Elem-append_left,
  Elem-append_right, Elem-append, missing, missing-lt, Bool-cases,
}
use claude_todo.Tasks.Model.{Task}
use claude_todo.Tasks.Graph.{IsTrail}
use claude_todo.Tasks.Search.{Search, Scan, cycle, going, enqueue, reach_id, scan_blocks, scan_docs}
use claude_todo.Tasks.Search.Trail.{known, IsPredecessor, cycle_path-IsTrail}

-- What the documents of a layer list.
abbrev pub Lists : List Task → String → Type 0
Lists docs v = (doc : Task) × Elem doc docs × Elem v doc.blocks

-- `universe` holds every id that some task blocks.
module _ (E : String → String → Type 0) (source target : String) (universe : List String) where
  pub record IsSearch (st : Search) : Type 0 where
    pub predecessors : IsPredecessor E target st.predecessor
    pub keys : st.visited ≡ known target st.predecessor
    pub misses : contains st.visited source ≡ false
    pub reached : (v : String) → Elem v st.next_frontier → Elem v st.visited

  pub record Grows (st st' : Search) : Type 0 where
    pub keeps : (v : String) → Elem v st.visited → Elem v st'.visited
    pub queues : (v : String) → Elem v st.next_frontier → Elem v st'.next_frontier
    pub origin : (v : String) → Elem v st'.visited → Elem v st.visited ⊎ Elem v st'.next_frontier
    pub budget :
        missing universe st'.visited + length st'.next_frontier
        ≤ missing universe st.visited + length st.next_frontier

  Grows-refl : (st : Search) → Grows st st
  Grows-refl st = record {
    keeps = λ v h. h;
    queues = λ v h. h;
    origin = λ v h. inl h;
    budget = omega arith;
  }

  Grows-trans : (st st' st'' : Search) → Grows st st' → Grows st' st'' → Grows st st''
  Grows-trans st st' st'' g h = record {
    keeps = λ v m. h.keeps v (g.keeps v m);
    queues = λ v m. h.queues v (g.queues v m);
    origin = λ v m. elim (h.origin v m) [
      | inr q ↦ inr q
      | inl old ↦ elim (g.origin v old) [ inl older ↦ inl older | inr q ↦ inr (h.queues v q) ]
    ];
    budget = omega (arith, g.budget, h.budget);
  }

  module _ (current neighbor : String) (st : Search) (i : IsSearch st)
      (new : contains st.visited neighbor ≡ false) where
    not_known : ¬ Elem neighbor (known target st.predecessor)
    not_known m = cc (new, Elem-contains st.visited neighbor (subst (Elem neighbor) (sym i.keys) m))

    -- A new neighbour is put in once, with the task that leads to it.
    enqueue-IsSearch :
        Elem current st.visited
        → E current neighbor
        → (neighbor == source) ≡ false
        → IsSearch (enqueue current neighbor st)
    enqueue-IsSearch at edge ne = record {
      predecessors = (not_known, subst (Elem current) i.keys at, edge, i.predecessors);
      keys = ap (λ vs. neighbor ∷ vs) i.keys;
      misses = rw ne i.misses;
      reached = λ v m. elim (Elem-append v st.next_frontier (neighbor ∷ []) m) [
        | inl old ↦ inr (i.reached v old)
        | inr (inl e) ↦ inl e
        | inr (inr none_left) ↦ elim none_left [ ]
      ];
    }

    enqueue-Grows : Elem neighbor universe → Grows st (enqueue current neighbor st)
    enqueue-Grows listed = record {
      keeps = λ v m. inr m;
      queues = λ v m. Elem-append_left v st.next_frontier (neighbor ∷ []) m;
      origin = λ v m. elim m [
        | inl e ↦ inr (Elem-append_right v st.next_frontier (neighbor ∷ []) (inl e))
        | inr old ↦ inl old
      ];
      budget = omega (
        arith,
        missing-lt universe st.visited neighbor listed new,
        length-append st.next_frontier (neighbor ∷ []),
      );
    }

  module _ (current neighbor : String) (st : Search) (i : IsSearch st) where
    reach_id-IsSearch :
        Elem current st.visited
        → E current neighbor
        → (neighbor == source) ≡ false
        → IsSearch (reach_id current neighbor st)
    reach_id-IsSearch at edge ne = elim (Bool-cases (contains st.visited neighbor)) [
      | inl old ↦ rw old i
      | inr new ↦ rw new (enqueue-IsSearch current neighbor st i new at edge ne)
    ]

    reach_id-Grows : Elem neighbor universe → Grows st (reach_id current neighbor st)
    reach_id-Grows listed = elim (Bool-cases (contains st.visited neighbor)) [
      | inl old ↦ rw old (Grows-refl st)
      | inr new ↦ rw new (enqueue-Grows current neighbor st i new listed)
    ]

    reach_id-visited : Elem neighbor (reach_id current neighbor st).visited
    reach_id-visited = elim (Bool-cases (contains st.visited neighbor)) [
      | inl old ↦ rw old (contains-Elem st.visited neighbor old)
      | inr new ↦ rw new (inl refl)
    ]

  -- What a loop over `edges` leaves: a trail that closes the cycle, or every end reached.
  abbrev pub Scanned : (String → Type 0) → Search → Scan → Type 0
  Scanned Listed st (cycle path) = IsTrail E target path source
  Scanned Listed st (going st') =
      IsSearch st' × Grows st st' × ((v : String) → Listed v → Elem v st'.visited)

  Scanned-step :
      (Before After : String → Type 0) (st st' : Search) (r : Scan)
      → Grows st st'
      → ((v : String) → Before v → After v ⊎ Elem v st'.visited)
      → Scanned After st' r
      → Scanned Before st r
  Scanned-step Before After st st' (cycle path) g split h = h
  Scanned-step Before After st st' (going st'') g split h = (
    h.0,
    Grows-trans st st' st'' g h.1,
    λ v m. elim (split v m) [ inl later ↦ h.2 v later | inr now ↦ h.1.keeps v now ],
  )

  scan_blocks-Scanned :
      (current : String) (blocks : List String) (st : Search)
      → IsSearch st
      → Elem current st.visited
      → ((v : String) → Elem v blocks → E current v × Elem v universe)
      → Scanned (λ v. Elem v blocks) st (scan_blocks source current blocks st)
  unfolding scan_blocks
  scan_blocks-Scanned current [] st i at edges = (i, Grows-refl st, λ v m. elim m [ ])
  scan_blocks-Scanned current (n ∷ ns) st i at edges = elim (Bool-cases (n == source)) [
    | inl closes ↦ rw closes (
        cycle_path-IsTrail E target source current st.predecessor i.predecessors
          (subst (Elem current) i.keys at)
          (subst (E current) ((string_eq.beq_iff n source).0 closes) (edges n (inl refl)).0))
    | inr goes_on ↦
        let st' = reach_id current n st in
        let g = reach_id-Grows current n st i (edges n (inl refl)).1 in
        rw goes_on (
          Scanned-step (λ v. Elem v (n ∷ ns)) (λ v. Elem v ns) st st' _ g
            (λ v m. elim m [
              | inl e ↦
                  inr (subst (λ z. Elem z st'.visited) (sym e) (reach_id-visited current n st i))
              | inr later ↦ inl later
            ])
            (scan_blocks-Scanned current ns (reach_id current n st)
              (reach_id-IsSearch current n st i at (edges n (inl refl)).0 goes_on)
              (g.keeps current at) (λ v m. edges v (inr m))))
  ]

  pub scan_docs-Scanned :
      (docs : List Task) (st : Search)
      → IsSearch st
      → ((doc : Task) → Elem doc docs → Elem doc.id st.visited)
      → ((doc : Task) (v : String)
          → Elem doc docs
          → Elem v doc.blocks
          → E doc.id v × Elem v universe)
      → Scanned (Lists docs) st (scan_docs source docs st)
  unfolding scan_docs
  scan_docs-Scanned [] st i at edges = (i, Grows-refl st, λ v m. elim m.1 [ ])
  scan_docs-Scanned (doc ∷ docs) st i at edges =
      go (scan_blocks source doc.id doc.blocks st)
        (scan_blocks-Scanned doc.id doc.blocks st i (at doc (inl refl))
          (λ v m. edges doc v (inl refl) m))
        (λ st' i' g.
          scan_docs-Scanned docs st' i' (λ d m. g.keeps d.id (at d (inr m)))
            (λ d v m. edges d v (inr m)))
    where
      go :
          (r : Scan)
          → Scanned (λ v. Elem v doc.blocks) st r
          → ((st' : Search)
              → IsSearch st'
              → Grows st st'
              → Scanned (Lists docs) st' (scan_docs source docs st'))
          → Scanned
              (Lists (doc ∷ docs))
              st
              (elim r [ cycle path ↦ cycle path | going st' ↦ scan_docs source docs st' ])
      go (cycle path) h rest = h
      go (going st') h rest =
          Scanned-step (Lists (doc ∷ docs)) (Lists docs) st st' _ h.1
            (λ v (d, m, listed). elim m [
              | inl e ↦ inr (h.2 v (subst (λ (t : Task). Elem v t.blocks) e listed))
              | inr later ↦ inl (d, later, listed)
            ])
            (rest st' h.0 h.1)
