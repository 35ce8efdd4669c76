-- ===== src/Tasks/Search/Layers.antt =====
-- `has_cycle` decides whether the source can be reached from the target.
use claude_todo.Prelude.{
  ℕ, zero, suc, ◌+◌, ◌<◌, String, ◌≡◌, refl, sym, subst, ◌↔◌, ◌⊎◌, inl, inr, true, Option, none,
  some, List, [], ◌∷◌, arith, nat_eq, string_eq, ◌==◌, Bool-cases, length, some_left, some_left-le,
  Elem, Elem-append_left, Elem-append_right, contains, contains-Elem, Elem-contains, missing,
  missing-le,
}
use claude_todo.Tasks.Model.{Task}
use claude_todo.Tasks.Collection.{Collection}
use claude_todo.Tasks.Graph.{live_in, Blocks, Reach, here, next, IsTrail, IsTrail-Reach}
use claude_todo.Tasks.Search.{
  Search, Scan, cycle, going, scan_docs, targets, layer_query, search_layers, edge_targets,
  has_cycle,
}
use claude_todo.Tasks.Search.Scanning.{IsSearch, Grows, Scanned, Lists, scan_docs-Scanned}

Elem-targets :
    (doc : Task) (docs : List Task) (v : String)
    → Elem doc docs
    → Elem v doc.blocks
    → Elem v (targets docs)
Elem-targets doc [] v m h = elim m [ ]
Elem-targets doc (d ∷ docs) v (inl e) h =
    Elem-append_left v d.blocks (targets docs) (subst (λ (t : Task). Elem v t.blocks) e h)
Elem-targets doc (d ∷ docs) v (inr m) h =
    Elem-append_right v d.blocks (targets docs) (Elem-targets doc docs v m h)

module _ (c : Collection) (s : c.Store) (project source target : String) where
  abbrev E : String → String → Type 0
  E = Blocks c s project

  abbrev universe : List String
  universe = edge_targets c s project

  layer : List String → List Task
  layer frontier = c.find s (layer_query c project frontier)

  module _ (frontier : List String) where
    layer_sound :
        (doc : Task)
        → Elem doc (layer frontier)
        → (c.get s doc.id ≡ some doc) × (live_in project doc ≡ true) × Elem doc.id frontier
    unfolding layer
    layer_sound doc m =
        let (stored, fits) = c.find_sound s (layer_query c project frontier) doc m in
        (stored, ground arith, contains-Elem frontier doc.id (ground arith))

    layer_edges :
        (doc : Task) (v : String)
        → Elem doc (layer frontier)
        → Elem v doc.blocks
        → E doc.id v × Elem v universe
    layer_edges doc v m listed =
        let (stored, live, _) = layer_sound doc m in
        (
          record { task = doc; stored = stored; live = live; lists = listed },
          Elem-targets doc (c.find s (live_in project)) v
              (c.find_complete s (live_in project) doc.id doc stored live) listed,
        )

    layer_complete : (a b : String) → Elem a frontier → E a b → Lists (layer frontier) b
    unfolding layer
    layer_complete a b m e =
        let listed : contains frontier e.task.id ≡ true =
          Elem-contains frontier e.task.id
            (subst (λ z. Elem z frontier) (sym (c.get_id s a e.task e.stored)) m) in
        (
          e.task,
          c.find_complete s (layer_query c project frontier) a e.task e.stored
              (ground (arith, listed, e.live)),
          e.lists,
        )

  -- What has been reached and is not in the frontier has been read.
  abbrev Closed : List String → List String → Type 0
  Closed frontier visited =
      (v : String) → Elem v visited → Elem v frontier ⊎ ((b : String) → E v b → Elem b visited)

  abbrev pub Found : Option (List String) → Type 0
  Found (some path) = IsTrail E target path source
  Found none = ¬ Reach E target source

  Closed-Reach :
      (visited : List String) (b : String)
      → Closed [] visited
      → Elem target visited
      → Reach E target b
      → Elem b visited
  Closed-Reach visited b closed start here = start
  Closed-Reach visited b closed start (next {b = m} r e) =
      elim (closed m (Closed-Reach visited m closed start r)) [
        | inl nowhere ↦ elim nowhere [ ]
        | inr out ↦ out b e
      ]

  Closed-layer :
      (frontier : List String) (st st' : Search)
      → Closed frontier st.visited
      → Grows E source target universe st st'
      → ((v : String) → Lists (layer frontier) v → Elem v st'.visited)
      → Closed st'.next_frontier st'.visited
  Closed-layer frontier st st' closed g covers v m = elim (g.origin v m) [
    | inr queued ↦ inl queued
    | inl old ↦ elim (closed v old) [
      | inl now ↦ inr (λ b e. covers b (layer_complete frontier v b now e))
      | inr out ↦ inr (λ b e. g.keeps b (out b e))
    ]
  ]

  search_layers-Found :
      (fuel : ℕ) (frontier : List String) (st : Search)
      → IsSearch E source target universe st
      → Elem target st.visited
      → ((v : String) → Elem v frontier → Elem v st.visited)
      → Closed frontier st.visited
      → missing universe st.visited + some_left frontier < fuel
      → Found (search_layers c fuel s project source frontier st)
  unfolding search_layers layer
  search_layers-Found zero frontier st i start within closed fuel_left = elim fuel_left [ ]
  search_layers-Found (suc fuel) [] st i start within closed fuel_left = λ r.
      cc (i.misses, Elem-contains st.visited source (Closed-Reach st.visited source closed start r))
  search_layers-Found (suc fuel) (f ∷ fs) st i start within closed fuel_left =
      let from = record st { next_frontier = [] } in
      go (scan_docs source (layer (f ∷ fs)) from)
        (scan_docs-Scanned E source target universe (layer (f ∷ fs)) from
          (record {
            predecessors = i.predecessors;
            keys = i.keys;
            misses = i.misses;
            reached = λ v m. elim m [ ];
          })
          (λ doc m. within doc.id (layer_sound (f ∷ fs) doc m).2) (layer_edges (f ∷ fs)))
        (λ st' i' g covers.
          search_layers-Found fuel st'.next_frontier st' i' (g.keeps target start) i'.reached
            (Closed-layer (f ∷ fs) from st' closed g covers)
            (omega (arith, g.budget, some_left-le st'.next_frontier)))
    where
      go :
          (r : Scan)
          → Scanned E source target universe
              (Lists (layer (f ∷ fs)))
              (record st { next_frontier = [] })
              r
          → ((st' : Search)
              → IsSearch E source target universe st'
              → Grows E source target universe (record st { next_frontier = [] }) st'
              → ((v : String) → Lists (layer (f ∷ fs)) v → Elem v st'.visited)
              → Found (search_layers c fuel s project source st'.next_frontier st'))
          → Found (elim r [
            | cycle path ↦ some path
            | going st' ↦ search_layers c fuel s project source st'.next_frontier st'
          ])
      go (cycle path) h rest = h
      go (going st') h rest = rest st' h.0 h.1 h.2

  -- `has_cycle` gives a path from the target to the source along the `blocks` lists of live tasks of
  -- the project, or `None` where no walk along these lists leads from the target to the source.
  pub has_cycle-Found : Found (has_cycle c s project source target)
  unfolding has_cycle
  has_cycle-Found = elim (Bool-cases (source == target)) [
    | inl same ↦ rw same (sym ((string_eq.beq_iff source target).0 same), refl)
    | inr other ↦ rw other (
        search_layers-Found (length universe + 2) (target ∷ []) _
          (record {
            predecessors = tt;
            keys = refl;
            misses =
                ground (arith, string_eq.beq_iff target source, string_eq.beq_iff source target);
            reached = λ v m. elim m [ ];
          })
          (inl refl) (λ v m. m) (λ v m. inl m) (omega (arith, missing-le universe (target ∷ []))))
  ]

-- When `has_cycle` returns a path, that path runs from the target to the source along the `blocks`
-- lists of live tasks of the project.
pub has_cycle-IsTrail :
    (c : Collection) (s : c.Store) (project_id source_id target_id : String) (path : List String)
    → has_cycle c s project_id source_id target_id ≡ some path
    → IsTrail (Blocks c s project_id) target_id path source_id
has_cycle-IsTrail c s project_id source_id target_id path h =
    subst (Found c s project_id source_id target_id) h
      (has_cycle-Found c s project_id source_id target_id)

-- `has_cycle` returns `None` exactly when no walk along the `blocks` lists of live tasks of the
-- project leads from the target to the source.
pub has_cycle-none_iff :
    (c : Collection) (s : c.Store) (project_id source_id target_id : String)
    → (has_cycle c s project_id source_id target_id ≡ none)
      ↔ (¬ Reach (Blocks c s project_id) target_id source_id)
has_cycle-none_iff c s project_id source_id target_id = (
  λ h. subst (Found c s project_id source_id target_id) h found,
  λ absent. go (has_cycle c s project_id source_id target_id) absent found,
)
  where
    found : Found c s project_id source_id target_id (has_cycle c s project_id source_id target_id)
    found = has_cycle-Found c s project_id source_id target_id

    go :
        (r : Option (List String))
        → ¬ Reach (Blocks c s project_id) target_id source_id
        → Found c s project_id source_id target_id r
        → r ≡ none
    go none absent h = refl
    go (some path) absent h =
        absurd (absent (IsTrail-Reach (Blocks c s project_id) target_id path source_id h))
