-- ===== src/Tasks/Memory.antt =====
-- A collection in memory that behaves as the interface states, for the examples. A write to one of
-- the `broken` ids raises.
use claude_todo.Prelude.{
  ℕ, ◌≤◌, ◌<◌, String, ◌≡◌, refl, sym, ap, ◌∙◌, subst, ◌≢◌, inl, inr, Bool, true, false, not, ◌&&◌,
  Option, none, some, List, [], ◌∷◌, map, arith, nat_eq, string_eq, ◌==◌, if◌then◌else◌, Bool-cases,
  some_injective, Elem, All, All-Elem, filter, contains, beq_refl,
}
use claude_todo.Tasks.Model.{Task}
use claude_todo.Tasks.Collection.{Collection, DistinctIds}
use claude_todo.Tasks.Graph.{Blocks, Reach, here, next, IsAcyclic}
use claude_todo.Tasks.Link.Mutual.{IsMutual}

unfoldable pub fetch : String → List Task → Option Task
fetch i [] = none
fetch i (u ∷ us) = if u.id == i then some u else fetch i us

unfoldable pub put : Task → List Task → List Task
put t [] = t ∷ []
put t (u ∷ us) = if u.id == t.id then t ∷ us else u ∷ put t us

abbrev pub Absent : String → List Task → Type 0
Absent i l = All (λ (u : Task). u.id ≢ i) l

pub fetch_id : (i : String) (t : Task) (l : List Task) → fetch i l ≡ some t → t.id ≡ i
unfolding fetch
fetch_id i t [] h = cc
fetch_id i t (u ∷ us) h = elim (Bool-cases (u.id == i)) [
  | inl same ↦
      ap (λ (v : Task). v.id) (sym (some_injective (rw (same, fetch) at h)))
      ∙ (string_eq.beq_iff u.id i).0 same
  | inr other ↦ fetch_id i t us (rw (other, fetch) at h)
]

pub fetch-put :
    (t : Task) (i : String) (l : List Task)
    → fetch i (put t l) ≡ (if t.id == i then some t else fetch i l)
unfolding fetch put
fetch-put t i [] = refl
fetch-put t i (u ∷ us) = ground (
  arith,
  string_eq.beq_iff u.id t.id,
  string_eq.beq_iff u.id i,
  string_eq.beq_iff t.id i,
  fetch-put t i us,
)

Absent-put : (i : String) (t : Task) (l : List Task) → t.id ≢ i → Absent i l → Absent i (put t l)
unfolding put
Absent-put i t [] h k = (h, tt)
Absent-put i t (u ∷ us) h k = elim (Bool-cases (u.id == t.id)) [
  | inl same ↦ rw same (h, k.1)
  | inr other ↦ rw other (k.0, Absent-put i t us h k.1)
]

pub put-DistinctIds : (t : Task) (l : List Task) → DistinctIds l → DistinctIds (put t l)
unfolding put
put-DistinctIds t [] d = (tt, tt)
put-DistinctIds t (u ∷ us) d = elim (Bool-cases (u.id == t.id)) [
  | inl same ↦ rw same (subst (λ i. Absent i us) ((string_eq.beq_iff u.id t.id).0 same) d.0, d.1)
  | inr other ↦ rw other (
    Absent-put u.id t us (λ e. cc (other, (string_eq.beq_iff u.id t.id).1 (sym e))) d.0,
    put-DistinctIds t us d.1,
  )
]

Absent-Elem : (t : Task) (l : List Task) → Absent t.id l → ¬ Elem t l
Absent-Elem t [] a m = elim m [ ]
Absent-Elem t (u ∷ us) a (inl e) = a.0 (ap (λ (v : Task). v.id) (sym e))
Absent-Elem t (u ∷ us) a (inr m) = Absent-Elem t us a.1 m

pub fetch-Elem : (t : Task) (l : List Task) → DistinctIds l → Elem t l → fetch t.id l ≡ some t
unfolding fetch
fetch-Elem t [] d m = elim m [ ]
fetch-Elem t (u ∷ us) d (inl e) = rw (← e) (rw (beq_refl t.id))
fetch-Elem t (u ∷ us) d (inr m) = elim (Bool-cases (u.id == t.id)) [
  | inl same ↦
      absurd
        (Absent-Elem t us (subst (λ i. Absent i us) ((string_eq.beq_iff u.id t.id).0 same) d.0) m)
  | inr other ↦ rw other (fetch-Elem t us d.1 m)
]

module _ (p : Task → Bool) where
  pub Elem-filter : (t : Task) (l : List Task) → Elem t (filter p l) → Elem t l × (p t ≡ true)
  Elem-filter t [] m = elim m [ ]
  Elem-filter t (u ∷ us) m = elim (Bool-cases (p u)) [
    | inr out ↦ let r = Elem-filter t us (rw out at m) in (inr r.0, r.1)
    | inl kept ↦ pick (Elem-filter t us) (rw kept at m) kept
  ]
    where
      pick :
          (Elem t (filter p us) → Elem t us × (p t ≡ true))
          → Elem t (u ∷ filter p us)
          → p u ≡ true
          → Elem t (u ∷ us) × (p t ≡ true)
      pick rest (inl e) kept = (inl e, rw e kept)
      pick rest (inr later) kept = (inr (rest later).0, (rest later).1)

  filter_later : (t u : Task) (us : List Task) → Elem t (filter p us) → Elem t (filter p (u ∷ us))
  filter_later t u us m = elim (Bool-cases (p u)) [
    | inl kept ↦ rw kept (inr m)
    | inr out ↦ rw out m
  ]

  filter_first : (t u : Task) (us : List Task) → t ≡ u → p t ≡ true → Elem t (filter p (u ∷ us))
  filter_first t u us e h = rw (← e) (rw h (inl refl))

  pub fetch-filter :
      (i : String) (t : Task) (l : List Task)
      → fetch i l ≡ some t
      → p t ≡ true
      → Elem t (filter p l)
  unfolding fetch
  fetch-filter i t [] h k = cc
  fetch-filter i t (u ∷ us) h k = elim (Bool-cases (u.id == i)) [
    | inl same ↦ filter_first t u us (sym (some_injective (rw (same, fetch) at h))) k
    | inr other ↦ filter_later t u us (fetch-filter i t us (rw (other, fetch) at h) k)
  ]

  Absent-filter : (i : String) (l : List Task) → Absent i l → Absent i (filter p l)
  Absent-filter i [] a = tt
  Absent-filter i (u ∷ us) a = elim (Bool-cases (p u)) [
    | inl kept ↦ rw kept (a.0, Absent-filter i us a.1)
    | inr out ↦ rw out (Absent-filter i us a.1)
  ]

  pub filter-DistinctIds : (l : List Task) → DistinctIds l → DistinctIds (filter p l)
  filter-DistinctIds [] d = tt
  filter-DistinctIds (u ∷ us) d = elim (Bool-cases (p u)) [
    | inl kept ↦ rw kept (Absent-filter u.id us d.0, filter-DistinctIds us d.1)
    | inr out ↦ rw out (filter-DistinctIds us d.1)
  ]

pub fetch-All :
    (P : Task → Type 0) (i : String) (t : Task) (l : List Task) → All P l → fetch i l ≡ some t → P t
unfolding fetch
fetch-All P i t [] a h = cc
fetch-All P i t (u ∷ us) a h = elim (Bool-cases (u.id == i)) [
  | inl same ↦ subst P (some_injective (rw (same, fetch) at h)) a.0
  | inr other ↦ fetch-All P i t us a.1 (rw (other, fetch) at h)
]

pub record Documents : Type 0 where
  pub items : List Task
  pub distinct : DistinctIds items

-- Data are given with a test of their ids.
abbrev pub are_distinct : List Task → Bool
are_distinct [] = true
are_distinct (t ∷ ts) = not (contains (map (λ (u : Task). u.id) ts) t.id) && are_distinct ts

Absent-sound :
    (i : String) (ts : List Task) → contains (map (λ (u : Task). u.id) ts) i ≡ false → Absent i ts
Absent-sound i [] h = tt
Absent-sound i (t ∷ ts) h =
    ((λ e. cc ((string_eq.beq_iff t.id i).1 e, h)), Absent-sound i ts (ground arith))

pub distinct_sound : (l : List Task) → are_distinct l ≡ true → DistinctIds l
distinct_sound [] h = tt
distinct_sound (t ∷ ts) h = (Absent-sound t.id ts (ground arith), distinct_sound ts (ground arith))

abbrev pub documents : (l : List Task) → are_distinct l ≡ true → Documents
documents l h = record { items = l; distinct = distinct_sound l h }

module _ (broken : List String) where
  abbrev pub write : Documents → Task → Bool × Documents
  write s t =
      if contains broken t.id
      then (false, s)
      else (true, record { items = put t s.items; distinct = put-DistinctIds t s.items s.distinct })

  pub write_ok :
      (s : Documents) (t : Task) (i : String)
      → (write s t).0 ≡ true
      → fetch i (write s t).1.items ≡ (if t.id == i then some t else fetch i s.items)
  write_ok s t i h = elim (Bool-cases (contains broken t.id)) [
    | inl raises ↦ absurd (cc (rw raises at h))
    | inr works ↦ rw works (fetch-put t i s.items)
  ]

  pub write_raises : (s : Documents) (t : Task) → (write s t).0 ≡ false → (write s t).1 ≡ s
  write_raises s t h = elim (Bool-cases (contains broken t.id)) [
    | inl raises ↦ rw raises
    | inr works ↦ absurd (cc (rw works at h))
  ]

  abbrev pub memory : Collection
  memory = record {
    Store = Documents;
    get = λ s i. fetch i s.items;
    find = λ s p. filter p s.items;
    save = write;
    get_id = λ s i t. fetch_id i t s.items;
    find_sound =
        λ s p t m. let r = Elem-filter p t s.items m in (fetch-Elem t s.items s.distinct r.0, r.1);
    find_complete = λ s p i t. fetch-filter p i t s.items;
    find_distinct = λ s p. filter-DistinctIds p s.items s.distinct;
    save_ok = write_ok;
    save_raises = write_raises;
  }

  -- A ranking of the ids along the edges.
  module _ (rank : String → ℕ) (s : Documents)
      (ranked : All (λ (t : Task). All (λ b. rank t.id < rank b) t.blocks) s.items) where
    rank-lt : (p a b : String) → Blocks memory s p a b → rank a < rank b
    rank-lt p a b e = rw (← fetch_id a e.task s.items e.stored) (
        All-Elem (λ x. rank e.task.id < rank x) b e.task.blocks
          (fetch-All (λ (t : Task). All (λ x. rank t.id < rank x) t.blocks) a e.task s.items ranked
            e.stored)
          e.lists)

    rank-le : (p a b : String) → Reach (Blocks memory s p) a b → rank a ≤ rank b
    rank-le p a b here = omega arith
    rank-le p a b (next {b = m} r e) = omega (arith, rank-le p a m r, rank-lt p m b e)

    pub ranked-IsAcyclic : (p : String) → IsAcyclic (Blocks memory s p)
    ranked-IsAcyclic p a (m, r, e) = omega (arith, rank-le p a m r, rank-lt p m a e)

  abbrev pub HasNoLinks : Task → Type 0
  HasNoLinks t = (t.blocks ≡ []) × (t.blocked_by ≡ [])

  pub unlinked-IsMutual : (s : Documents) → All HasNoLinks s.items → IsMutual memory s
  unlinked-IsMutual s h = record {
    at = λ a b ta tb ha hb la lb.
        rw (fetch-All HasNoLinks a ta s.items h ha).0
          (rw (fetch-All HasNoLinks b tb s.items h hb).1 refl);
  }
