-- ===== src/ErrorTracker/Envelope/Reading.antt =====
-- What the steps of the parser take from the bytes, and what they leave.
use claude_todo.Prelude.{
  ℕ, zero, suc, ◌≤◌, ◌≡◌, refl, sym, subst, ap, ◌∙◌, true, false, Option, none, some, List, [], ◌∷◌,
  ◌++◌, ◌==◌, nat_eq, string_eq, length, contains, arith, inl, inr, Bool-cases, Option-cases,
  some_injective,
}
use claude_todo.ErrorTracker.Envelope.{split_line, skip_newlines, take_bytes, drop_newline}

-- The two ways in which a payload ends.
abbrev pub Ends : Option ℕ → List ℕ → Type 0
Ends none payload = contains payload 10 ≡ false
Ends (some n) payload = length payload ≡ n

pub record Line (bs line rest : List ℕ) : Type 0 where
  pub clean : contains line 10 ≡ false
  pub bytes : bs ≡ line ++ 10 ∷ rest

split_line-here : (b : ℕ) (bs : List ℕ) → (b == 10) ≡ true → split_line (b ∷ bs) ≡ some ([], bs)
unfolding split_line
split_line-here b bs is = rw is refl

split_line-there :
    (b : ℕ) (bs line rest : List ℕ)
    → (b == 10) ≡ false
    → split_line bs ≡ some (line, rest)
    → split_line (b ∷ bs) ≡ some (b ∷ line, rest)
unfolding split_line
split_line-there b bs line rest is e = rw (is, e) refl

split_line-nowhere :
    (b : ℕ) (bs : List ℕ) → (b == 10) ≡ false → split_line bs ≡ none → split_line (b ∷ bs) ≡ none
unfolding split_line
split_line-nowhere b bs is e = rw (is, e) refl

pub split_line-Line : (bs : List ℕ) (p : List ℕ × List ℕ) → split_line bs ≡ some p → Line bs p.0 p.1
unfolding split_line
split_line-Line [] p h = cc
split_line-Line (b ∷ bs) p h = elim (Bool-cases (b == 10)) [
  | inl is ↦
      subst (λ q. Line (b ∷ bs) q.0 q.1) (some_injective (sym (split_line-here b bs is) ∙ h))
        (record { clean = refl; bytes = ap (λ x. x ∷ bs) ((nat_eq.beq_iff b 10).0 is) })
  | inr other ↦ elim (Option-cases (split_line bs)) [
    | inl e ↦ absurd (cc (split_line-nowhere b bs other e, h))
    | inr (q, e) ↦
        let l = split_line-Line bs q e in
        subst (λ q. Line (b ∷ bs) q.0 q.1)
          (some_injective (sym (split_line-there b bs q.0 q.1 other e) ∙ h))
          (record { clean = rw other l.clean; bytes = ap (λ x. b ∷ x) l.bytes })
  ]
]

pub split_line-none : (bs : List ℕ) → split_line bs ≡ none → contains bs 10 ≡ false
unfolding split_line
split_line-none [] h = refl
split_line-none (b ∷ bs) h = elim (Bool-cases (b == 10)) [
  | inl is ↦ absurd (cc (split_line-here b bs is, h))
  | inr other ↦ elim (Option-cases (split_line bs)) [
    | inl e ↦ rw other (split_line-none bs e)
    | inr (q, e) ↦ absurd (cc (split_line-there b bs q.0 q.1 other e, h))
  ]
]

pub split_line-append :
    (line rest : List ℕ)
    → contains line 10 ≡ false
    → split_line (line ++ 10 ∷ rest) ≡ some (line, rest)
unfolding split_line
split_line-append [] rest h = refl
split_line-append (b ∷ line) rest h = elim (Bool-cases (b == 10)) [
  | inl is ↦ absurd (ground (arith, h, is))
  | inr other ↦
      split_line-there b (line ++ 10 ∷ rest) line rest other
        (split_line-append line rest (ground (arith, h, other)))
]

pub length-skip_newlines : (bs : List ℕ) → length (skip_newlines bs) ≤ length bs
unfolding skip_newlines
length-skip_newlines [] = omega arith
length-skip_newlines (b ∷ bs) = ground (arith, length-skip_newlines bs)

pub take_bytes-append :
    (payload rest : List ℕ) → take_bytes (length payload) (payload ++ rest) ≡ some (payload, rest)
unfolding take_bytes
take_bytes-append [] rest = refl
take_bytes-append (b ∷ payload) rest = rw (take_bytes-append payload rest) refl

pub length-drop_newline : (bs : List ℕ) → length (drop_newline bs) ≤ length bs
length-drop_newline [] = omega arith
length-drop_newline (b ∷ bs) = ground arith

pub take_bytes-some :
    (n : ℕ) (bs : List ℕ) (p : List ℕ × List ℕ)
    → take_bytes n bs ≡ some p
    → (length p.0 ≡ n) × (bs ≡ p.0 ++ p.1)
unfolding take_bytes
take_bytes-some zero bs p h =
    subst (λ q. (length q.0 ≡ 0) × (bs ≡ q.0 ++ q.1)) (some_injective h) (refl, refl)
take_bytes-some (suc n) [] p h = cc
take_bytes-some (suc n) (b ∷ bs) p h = elim (Option-cases (take_bytes n bs)) [
  | inl e ↦ absurd (cc (stuck e, h))
  | inr (q, e) ↦
      let (size, bytes) = take_bytes-some n bs q e in
      subst (λ q. (length q.0 ≡ suc n) × (b ∷ bs ≡ q.0 ++ q.1))
        (some_injective (sym (more q e) ∙ h)) (ap suc size, ap (λ x. b ∷ x) bytes)
]
  where
    stuck : take_bytes n bs ≡ none → take_bytes (suc n) (b ∷ bs) ≡ none
    stuck e = rw e refl

    more :
        (q : List ℕ × List ℕ)
        → take_bytes n bs ≡ some q
        → take_bytes (suc n) (b ∷ bs) ≡ some (b ∷ q.0, q.1)
    more q e = rw e refl
