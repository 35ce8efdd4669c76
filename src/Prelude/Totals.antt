-- ===== src/Prelude/Totals.antt =====
-- Dictionaries whose keys differ, and sums over their values.
use Prim.Native.Nat.{ℕ, ◌+◌}
use mathlib.Core.Path.{◌≡◌, refl}
use mathlib.Core.Logic.{inl, inr}
use mathlib.Core.Option.{Option, none, some}
use mathlib.Core.List.{List, [], ◌∷◌}
use native.Mathlib.Omega.{arith}
use claude_todo.Prelude.Tests.{Eq, ◌==◌, Bool-cases}
use claude_todo.Prelude.Dict.{lookup, insert, erase, lookup-insert, lookup-erase}

abbrev pub weight : {V : Type 0} → (V → ℕ) → Option V → ℕ
weight f none = 0
weight f (some v) = f v

module _ {K V : Type 0} ⦃e : Eq K⦄ where
  abbrev pub UniqueKeys : List (K × V) → Type 0
  UniqueKeys [] = Unit
  UniqueKeys ((k, v) ∷ m) = (lookup k m ≡ none) × UniqueKeys m

  pub UniqueKeys-insert :
      (k : K) (v : V) (m : List (K × V)) → UniqueKeys m → UniqueKeys (insert k v m)
  UniqueKeys-insert k v [] h = (refl, tt)
  UniqueKeys-insert k v ((j, w) ∷ m) h = elim (Bool-cases (j == k)) [
    | inl same ↦ rw same (ground (arith, (e.beq_iff j k).0 same, h.0), h.1)
    | inr other ↦ rw other (
      ground (arith, lookup-insert k j v m, e.beq_iff k j, e.beq_iff j k, other, h.0),
      UniqueKeys-insert k v m h.1,
    )
  ]

  pub UniqueKeys-erase : (k : K) (m : List (K × V)) → UniqueKeys m → UniqueKeys (erase k m)
  UniqueKeys-erase k [] h = tt
  UniqueKeys-erase k ((j, w) ∷ m) h = elim (Bool-cases (j == k)) [
    | inl same ↦ rw same (UniqueKeys-erase k m h.1)
    | inr other ↦ rw other (ground (arith, lookup-erase k j m, h.0), UniqueKeys-erase k m h.1)
  ]

  pub erase-absent : (k : K) (m : List (K × V)) → lookup k m ≡ none → erase k m ≡ m
  erase-absent k [] h = refl
  erase-absent k ((j, w) ∷ m) h = elim (Bool-cases (j == k)) [
    | inl same ↦ absurd (cc (rw same at h))
    | inr other ↦ rw (other, erase-absent k m (rw other at h)) refl
  ]

  module _ (f : V → ℕ) where
    unfoldable pub total : List (K × V) → ℕ
    total [] = 0
    total ((k, v) ∷ m) = f v + total m

    pub total-insert :
        (k : K) (v : V) (m : List (K × V))
        → total (insert k v m) + weight f (lookup k m) ≡ total m + f v
    unfolding total
    total-insert k v [] = omega arith
    total-insert k v ((j, w) ∷ m) = elim (Bool-cases (j == k)) [
      | inl same ↦ rw same (omega arith)
      | inr other ↦ rw other (omega (arith, total-insert k v m))
    ]

    pub total-erase :
        (k : K) (m : List (K × V))
        → UniqueKeys m
        → total (erase k m) + weight f (lookup k m) ≡ total m
    unfolding total
    total-erase k [] h = omega arith
    total-erase k ((j, w) ∷ m) h = elim (Bool-cases (j == k)) [
      | inl same ↦ rw same (ground (arith, erase-absent k m, h.0, (e.beq_iff j k).0 same))
      | inr other ↦ rw other (omega (arith, total-erase k m h.1))
    ]
