-- ===== src/Prelude/Dict.antt =====
-- A dictionary as an association list, with the laws of its operations.
use mathlib.Core.Path.{◌≡◌, refl, subst}
use mathlib.Core.Logic.{inl, inr}
use mathlib.Core.Option.{Option, none, some}
use mathlib.Core.List.{List, [], ◌∷◌}
use native.Mathlib.Omega.{arith}
use claude_todo.Prelude.Tests.{Eq, ◌==◌, if◌then◌else◌, Bool-cases, some_injective}

module _ {K V : Type 0} ⦃e : Eq K⦄ where
  abbrev pub lookup : K → List (K × V) → Option V
  lookup k [] = none
  lookup k ((j, v) ∷ m) = if j == k then some v else lookup k m

  -- `m[k] = v`
  abbrev pub insert : K → V → List (K × V) → List (K × V)
  insert k v [] = (k, v) ∷ []
  insert k v ((j, w) ∷ m) = if j == k then (k, v) ∷ m else (j, w) ∷ insert k v m

  -- `m.pop(k, None)`
  abbrev pub erase : K → List (K × V) → List (K × V)
  erase k [] = []
  erase k ((j, w) ∷ m) = let rest = erase k m in if j == k then rest else (j, w) ∷ rest

  pub lookup-insert :
      (k j : K) (v : V) (m : List (K × V))
      → lookup j (insert k v m) ≡ (if k == j then some v else lookup j m)
  lookup-insert k j v [] = refl
  lookup-insert k j v ((i, w) ∷ m) =
      ground (arith, e.beq_iff k j, e.beq_iff i k, e.beq_iff i j, lookup-insert k j v m)

  pub lookup-erase :
      (k j : K) (m : List (K × V)) → lookup j (erase k m) ≡ (if k == j then none else lookup j m)
  lookup-erase k j [] = ground arith
  lookup-erase k j ((i, w) ∷ m) =
      ground (arith, e.beq_iff k j, e.beq_iff i k, e.beq_iff i j, lookup-erase k j m)

  -- A property of the values that are stored.
  abbrev pub AllValues : (V → Type 0) → List (K × V) → Type 0
  AllValues P [] = Unit
  AllValues P ((k, v) ∷ m) = P v × AllValues P m

  pub AllValues-insert :
      (P : V → Type 0) (k : K) (v : V) (m : List (K × V))
      → P v
      → AllValues P m
      → AllValues P (insert k v m)
  AllValues-insert P k v [] pv h = (pv, tt)
  AllValues-insert P k v ((j, w) ∷ m) pv h = elim (Bool-cases (j == k)) [
    | inl same ↦ rw same (pv, h.1)
    | inr other ↦ rw other (h.0, AllValues-insert P k v m pv h.1)
  ]

  pub AllValues-erase :
      (P : V → Type 0) (k : K) (m : List (K × V)) → AllValues P m → AllValues P (erase k m)
  AllValues-erase P k [] h = tt
  AllValues-erase P k ((j, w) ∷ m) h = elim (Bool-cases (j == k)) [
    | inl same ↦ rw same (AllValues-erase P k m h.1)
    | inr other ↦ rw other (h.0, AllValues-erase P k m h.1)
  ]

  pub AllValues-lookup :
      (P : V → Type 0) (k : K) (v : V) (m : List (K × V))
      → AllValues P m
      → lookup k m ≡ some v
      → P v
  AllValues-lookup P k v [] h at = cc
  AllValues-lookup P k v ((j, w) ∷ m) h at = elim (Bool-cases (j == k)) [
    | inl same ↦ subst P (some_injective (rw same at at)) h.0
    | inr other ↦ AllValues-lookup P k v m h.1 (rw other at at)
  ]
