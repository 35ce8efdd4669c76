-- ===== src/Prelude/Lists.antt =====
-- Lists measured by native numbers, and membership as a test and as a type.
use Prim.Native.Nat.{ℕ, suc, ◌+◌, ◌≤◌, ◌<◌}
use mathlib.Core.Path.{◌≡◌, refl, sym, subst, ap}
use mathlib.Core.Logic.{◌⊎◌, inl, inr}
use mathlib.Core.Bool.{Bool, true, false, not, ◌||◌}
use mathlib.Core.List.{List, [], ◌∷◌, ◌++◌}
use native.Mathlib.Omega.{arith}
use claude_todo.Prelude.Tests.{Eq, ◌==◌, if◌then◌else◌}

module _ {ℓ} {A : Type ℓ} where
  abbrev pub length : List A → ℕ
  length [] = 0
  length (x ∷ xs) = suc (length xs)

  pub length-append : (xs ys : List A) → length (xs ++ ys) ≡ length xs + length ys
  length-append [] ys = omega arith
  length-append (x ∷ xs) ys = omega (arith, length-append xs ys)

  -- 1 where a worklist is not empty.
  abbrev pub some_left : List A → ℕ
  some_left [] = 0
  some_left (x ∷ xs) = 1

  pub some_left-le : (xs : List A) → some_left xs ≤ length xs
  some_left-le [] = omega arith
  some_left-le (x ∷ xs) = omega arith

  abbrev pub All {κ} : (A → Type κ) → List A → Type κ
  All P [] = Unit
  All P (x ∷ xs) = P x × All P xs

  -- The library's filter wants a decision; the source filters by Boolean tests.
  abbrev pub filter : (A → Bool) → List A → List A
  filter p [] = []
  filter p (x ∷ xs) = let rest = filter p xs in if p x then x ∷ rest else rest

module _ {A : Type 0} where
  pub append_nil : (xs : List A) → xs ++ [] ≡ xs
  append_nil [] = refl
  append_nil (x ∷ xs) = ap (λ l. x ∷ l) (append_nil xs)

  pub append_assoc : (xs ys zs : List A) → (xs ++ ys) ++ zs ≡ xs ++ (ys ++ zs)
  append_assoc [] ys zs = refl
  append_assoc (x ∷ xs) ys zs = ap (λ l. x ∷ l) (append_assoc xs ys zs)

  -- Membership that computes to a sum, which the tactics take apart.
  abbrev pub Elem : A → List A → Type 0
  Elem a [] = ⊥
  Elem a (x ∷ xs) = (a ≡ x) ⊎ Elem a xs

  pub Elem-append_left : (a : A) (xs ys : List A) → Elem a xs → Elem a (xs ++ ys)
  Elem-append_left a [] ys m = elim m [ ]
  Elem-append_left a (x ∷ xs) ys (inl e) = inl e
  Elem-append_left a (x ∷ xs) ys (inr m) = inr (Elem-append_left a xs ys m)

  pub Elem-append_right : (a : A) (xs ys : List A) → Elem a ys → Elem a (xs ++ ys)
  Elem-append_right a [] ys m = m
  Elem-append_right a (x ∷ xs) ys m = inr (Elem-append_right a xs ys m)

  pub Elem-append : (a : A) (xs ys : List A) → Elem a (xs ++ ys) → Elem a xs ⊎ Elem a ys
  Elem-append a [] ys m = inr m
  Elem-append a (x ∷ xs) ys (inl e) = inl (inl e)
  Elem-append a (x ∷ xs) ys (inr m) = elim (Elem-append a xs ys m) [
    | inl h ↦ inl (inr h)
    | inr h ↦ inr h
  ]

  pub All-Elem {κ} : (P : A → Type κ) (a : A) (xs : List A) → All P xs → Elem a xs → P a
  All-Elem P a [] h m = elim m [ ]
  All-Elem P a (x ∷ xs) h (inl p) = subst P (sym p) h.0
  All-Elem P a (x ∷ xs) h (inr m) = All-Elem P a xs h.1 m

module _ {A : Type 0} ⦃e : Eq A⦄ where
  -- `a in xs`
  abbrev pub contains : List A → A → Bool
  contains [] a = false
  contains (x ∷ xs) a = x == a || contains xs a

  -- `[x for x in xs if x != a]`
  abbrev pub without : A → List A → List A
  without a xs = filter (λ x. not (x == a)) xs

  pub contains-Elem : (xs : List A) (a : A) → contains xs a ≡ true → Elem a xs
  contains-Elem [] a h = cc
  contains-Elem (x ∷ xs) a h = ground (arith, e.beq_iff x a, contains-Elem xs a)

  pub Elem-contains : (xs : List A) (a : A) → Elem a xs → contains xs a ≡ true
  Elem-contains [] a m = elim m [ ]
  Elem-contains (x ∷ xs) a (inl p) = ground (arith, e.beq_iff x a)
  Elem-contains (x ∷ xs) a (inr m) = ground (arith, Elem-contains xs a m)

  pub contains-append :
      (xs ys : List A) (a : A) → contains (xs ++ ys) a ≡ (contains xs a || contains ys a)
  contains-append [] ys a = refl
  contains-append (x ∷ xs) ys a = ground (arith, contains-append xs ys a)

  pub contains-without :
      (a b : A) (xs : List A)
      → contains (without a xs) b ≡ (if a == b then false else contains xs b)
  contains-without a b [] = ground arith
  contains-without a b (x ∷ xs) =
      ground (arith, e.beq_iff x a, e.beq_iff x b, e.beq_iff a b, contains-without a b xs)

  pub without-absent : (a : A) (xs : List A) → contains xs a ≡ false → without a xs ≡ xs
  without-absent a [] h = refl
  without-absent a (x ∷ xs) h = ground (arith, e.beq_iff x a, without-absent a xs)

  pub beq_refl : (a : A) → (a == a) ≡ true
  beq_refl a = (e.beq_iff a a).1 refl

  pub without-snoc : (a : A) (xs : List A) → contains xs a ≡ false → without a (xs ++ a ∷ []) ≡ xs
  without-snoc a [] h = rw (beq_refl a)
  without-snoc a (x ∷ xs) h = ground (arith, e.beq_iff x a, without-snoc a xs)

  -- How many of `us` a set of visited values leaves out.
  pub missing : List A → List A → ℕ
  missing [] seen = 0
  missing (u ∷ us) seen = if contains seen u then missing us seen else suc (missing us seen)

  pub missing-le : (us seen : List A) → missing us seen ≤ length us
  unfolding missing
  missing-le [] seen = omega arith
  missing-le (u ∷ us) seen = ground (arith, missing-le us seen)

  pub missing_mono : (us seen : List A) (a : A) → missing us (a ∷ seen) ≤ missing us seen
  unfolding missing
  missing_mono [] seen a = omega arith
  missing_mono (u ∷ us) seen a = ground (arith, missing_mono us seen a)

  -- A new value of the universe is one fewer to visit.
  pub missing-lt :
      (us seen : List A) (a : A)
      → Elem a us
      → contains seen a ≡ false
      → missing us (a ∷ seen) < missing us seen
  unfolding missing
  missing-lt [] seen a m h = elim m [ ]
  missing-lt (u ∷ us) seen a (inl p) h = ground (arith, e.beq_iff a u, missing_mono us seen a)
  missing-lt (u ∷ us) seen a (inr m) h =
      ground (arith, missing-lt us seen a m h, missing_mono us seen a)
