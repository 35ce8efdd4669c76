-- ===== src/Url/Ids.antt =====
-- Object ids, and texts without a character.
use claude_todo.Prelude.{
  ℕ, zero, suc, ◌≡◌, ◌≢◌, refl, ap, ◌∙◌, inl, inr, Bool, true, false, not, ◌&&◌, none, some, List,
  [], ◌∷◌, ◌++◌, ◌==◌, nat_eq, contains, filter, arith, Bool-cases, All,
}
use claude_todo.Url.{
  Text, text_eq, partition, split, join, rstrip, is_hex, hex_run, is_object_id, is_removed,
}

hex_run-contains :
    (n : ℕ) (s : Text) (c : ℕ)
    → hex_run n s ≡ true
    → is_hex c ≡ false
    → c ≢ 10
    → contains s c ≡ false
unfolding hex_run
hex_run-contains zero [] c h k m = refl
hex_run-contains zero (x ∷ []) c h k m = ground (arith, h, m)
hex_run-contains zero (x ∷ y ∷ ys) c h k m = cc
hex_run-contains (suc n) [] c h k m = cc
hex_run-contains (suc n) (x ∷ xs) c h k m =
    let later = hex_run-contains n xs c (ground (arith, h)) k m in
    elim (Bool-cases (x == c)) [
      | inl same ↦
          absurd (cc (ap is_hex ((nat_eq.beq_iff x c).0 same), k, hex_head x (hex_run n xs) h))
      | inr other ↦ rw other later
    ]
  where
    hex_head : (y : ℕ) (b : Bool) → (is_hex y && b) ≡ true → is_hex y ≡ true
    hex_head y b e = ground (arith, e)

-- An id holds no character but hexadecimal digits and a last newline.
pub is_object_id-contains :
    (s : Text) (c : ℕ) → is_object_id s ≡ true → is_hex c ≡ false → c ≢ 10 → contains s c ≡ false
unfolding is_object_id
is_object_id-contains s c h k m = hex_run-contains 24 s c h k m

pub partition-none : (c : ℕ) (s : Text) → contains s c ≡ false → partition c s ≡ (s, none)
unfolding partition
partition-none c [] h = refl
partition-none c (x ∷ xs) h =
    let later = partition-none c xs (ground (arith, h)) in
    let other : (x == c) ≡ false = ground (arith, h) in rw (other, later) refl

pub partition-append :
    (c : ℕ) (s rest : Text) → contains s c ≡ false → partition c (s ++ c ∷ rest) ≡ (s, some rest)
unfolding partition
partition-append c [] rest h =
    let same : (c == c) ≡ true = ground (arith, nat_eq.beq_iff c c) in rw same refl
partition-append c (x ∷ xs) rest h =
    let later = partition-append c xs rest (ground (arith, h)) in
    let other : (x == c) ≡ false = ground (arith, h) in rw (other, later) refl

pub split-none : (c : ℕ) (s : Text) → contains s c ≡ false → split c s ≡ s ∷ []
unfolding split
split-none c [] h = refl
split-none c (x ∷ xs) h =
    let later = split-none c xs (ground (arith, h)) in
    let other : (x == c) ≡ false = ground (arith, h) in rw (other, later) refl

pub split-append :
    (c : ℕ) (s rest : Text) → contains s c ≡ false → split c (s ++ c ∷ rest) ≡ s ∷ split c rest
unfolding split
split-append c [] rest h =
    let same : (c == c) ≡ true = ground (arith, nat_eq.beq_iff c c) in rw same refl
split-append c (x ∷ xs) rest h =
    let later = split-append c xs rest (ground (arith, h)) in
    let other : (x == c) ≡ false = ground (arith, h) in rw (other, later) refl

pub split-join :
    (c : ℕ) (s : Text) (ss : List Text)
    → All (λ x. contains x c ≡ false) (s ∷ ss)
    → split c (join c (s ∷ ss)) ≡ s ∷ ss
split-join c s [] h = split-none c s h.0
split-join c s (t ∷ ts) h =
    split-append c s (join c (t ∷ ts)) h.0 ∙ ap (λ l. s ∷ l) (split-join c t ts h.1)

-- A text that ends with a part of characters that are not stripped.
pub rstrip-append :
    (p : ℕ → Bool) (xs : Text) (y : ℕ) (ys : Text)
    → All (λ x. p x ≡ false) (y ∷ ys)
    → rstrip p (xs ++ y ∷ ys) ≡ xs ++ y ∷ ys
unfolding rstrip
rstrip-append p [] y [] h = rw h.0 refl
rstrip-append p [] y (z ∷ zs) h = rw (rstrip-append p [] z zs h.1) refl
rstrip-append p (x ∷ []) y ys h = rw (rstrip-append p [] y ys h) refl
rstrip-append p (x ∷ w ∷ ws) y ys h = rw (rstrip-append p (w ∷ ws) y ys h) refl

pub contains-All : (s : Text) (c : ℕ) → contains s c ≡ false → All (λ x. (x == c) ≡ false) s
contains-All [] c h = tt
contains-All (x ∷ xs) c h = (ground (arith, h), contains-All xs c (ground (arith, h)))

pub filter-clean :
    (s : Text)
    → contains s 9 ≡ false
    → contains s 10 ≡ false
    → contains s 13 ≡ false
    → filter (λ c. not (is_removed c)) s ≡ s
filter-clean [] h k m = refl
filter-clean (x ∷ xs) h k m =
    let later = filter-clean xs (ground (arith, h)) (ground (arith, k)) (ground (arith, m)) in
    let kept : is_removed x ≡ false = ground (arith, h, k, m) in rw (kept, later) refl
