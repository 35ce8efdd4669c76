-- ===== src/Tasks/Search/Trail.antt =====
-- The predecessor map of `has_cycle`, followed back, gives a trail from the target.
use mathlib.Core.List.{reverse-append}
use claude_todo.Prelude.{
  ℕ, zero, suc, ◌≤◌, String, ◌≡◌, refl, sym, ap, ◌∙◌, inl, inr, none, some, List, [], ◌∷◌, ◌++◌,
  reverse, arith, ◌==◌, string_eq, Elem, length, Option-cases, Bool-cases, subst,
}
use claude_todo.Tasks.Graph.{IsTrail}
use claude_todo.Tasks.Search.{lookup, walk_back, cycle_path}

-- The ids reached so far, newest first.
abbrev pub known : String → List (String × String) → List String
known target [] = target ∷ []
known target ((n, p) ∷ m) = n ∷ known target m

-- `walk_back`, with the path in its final order.
walk : ℕ → List (String × String) → String → List String → List String
walk zero m cur path = path
walk (suc fuel) m cur path = elim (lookup cur m) [ none ↦ path | some p ↦ walk fuel m p (p ∷ path) ]

reverse-walk_back :
    (fuel : ℕ) (m : List (String × String)) (cur : String) (path : List String)
    → reverse (walk_back fuel m cur path) ≡ walk fuel m cur (reverse path)
unfolding walk_back walk
reverse-walk_back zero m cur path = refl
reverse-walk_back (suc fuel) m cur path = elim (Option-cases (lookup cur m)) [
  | inl e ↦ rw (e, walk_back) (rw (e, walk))
  | inr (p, e) ↦
      rw (e, walk_back)
        (rw (e, walk)
          (reverse-walk_back fuel m p (path ++ p ∷ [])
            ∙ ap (walk fuel m p) (reverse-append path (p ∷ []))))
]

lookup_older :
    (target n p k : String) (m : List (String × String))
    → ¬ Elem n (known target m)
    → Elem k (known target m)
    → lookup k ((n, p) ∷ m) ≡ lookup k m
lookup_older target n p k m fresh hk = elim (Bool-cases (n == k)) [
  | inl same ↦
      absurd
        (fresh (subst (λ z. Elem z (known target m)) (sym ((string_eq.beq_iff n k).0 same)) hk))
  | inr other ↦ rw other
]

module _ (E : String → String → Type 0) (target : String) where
  -- Every entry leads from an id reached before to one that was new.
  abbrev pub IsPredecessor : List (String × String) → Type 0
  IsPredecessor [] = Unit
  IsPredecessor ((n, p) ∷ m) =
      (¬ Elem n (known target m)) × Elem p (known target m) × E p n × IsPredecessor m

  IsTrail-start :
      (cur : String) (r : List String) (d : String)
      → cur ≡ target
      → IsTrail E cur (cur ∷ r) d
      → IsTrail E target (cur ∷ r) d
  IsTrail-start cur [] d e h = (sym e, h.1)
  IsTrail-start cur (y ∷ r) d e h = (sym e, h.1, h.2)

  -- `sub` holds the entries that can still be met: `m` looks up as it does on its ids.
  walk-IsTrail :
      (fuel : ℕ) (m sub : List (String × String)) (cur : String) (r : List String) (d : String)
      → length sub ≤ fuel
      → IsPredecessor sub
      → Elem cur (known target sub)
      → ((k : String) → Elem k (known target sub) → lookup k m ≡ lookup k sub)
      → IsTrail E cur (cur ∷ r) d
      → IsTrail E target (walk fuel m cur (cur ∷ r)) d
  unfolding walk
  walk-IsTrail zero m [] cur r d le i (inl e) agree h = IsTrail-start cur r d e h
  walk-IsTrail (suc fuel) m [] cur r d le i (inl e) agree h =
      rw (agree cur (inl e), walk) (IsTrail-start cur r d e h)
  walk-IsTrail fuel m [] cur r d le i (inr e) agree h = elim e [ ]
  walk-IsTrail zero m (e ∷ sub) cur r d le i known_cur agree h = absurd (omega arith)
  walk-IsTrail (suc fuel) m ((n, p) ∷ sub) cur r d le i (inl e) agree h =
      rw (agree cur (inl e) ∙ first, walk)
        (walk-IsTrail fuel m sub p (cur ∷ r) d (omega arith) i.3 i.1 (older_agree)
          (refl, subst (E p) (sym e) i.2, h))
    where
      first : lookup cur ((n, p) ∷ sub) ≡ some p
      first = rw ((string_eq.beq_iff n cur).1 (sym e))

      older_agree : (k : String) → Elem k (known target sub) → lookup k m ≡ lookup k sub
      older_agree k hk = agree k (inr hk) ∙ lookup_older target n p k sub i.0 hk
  walk-IsTrail (suc fuel) m ((n, p) ∷ sub) cur r d le i (inr older) agree h =
      walk-IsTrail (suc fuel) m sub cur r d (omega arith) i.3 older
        (λ k hk. agree k (inr hk) ∙ lookup_older target n p k sub i.0 hk) h

  -- The path that closes a cycle is a trail from the target to the source.
  pub cycle_path-IsTrail :
      (source current : String) (m : List (String × String))
      → IsPredecessor m
      → Elem current (known target m)
      → E current source
      → IsTrail E target (cycle_path source current m) source
  unfolding cycle_path
  cycle_path-IsTrail source current m i reached edge =
      rw (reverse-walk_back (length m) m current (source ∷ current ∷ [])) (
        walk-IsTrail (length m) m m current (source ∷ []) source (omega arith) i reached
          (λ k hk. refl) (refl, edge, (refl, refl)))
