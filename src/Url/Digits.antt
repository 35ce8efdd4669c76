-- ===== src/Url/Digits.antt =====
-- What an id is: 24 of the sixteen digits, told without the code's test.
use claude_todo.Prelude.{
  ℕ, zero, suc, ◌≡◌, refl, ap, ◌∙◌, inl, inr, Bool, false, ◌&&◌, [], ◌∷◌, ◌==◌, nat_eq,
  if◌then◌else◌, length, contains, arith, Bool-cases,
}
use claude_todo.Url.{Text, codes, is_hex, hex_run, is_object_id}
use claude_todo.Url.Strings.{all_of}

abbrev pub hex_digits : Text
hex_digits = codes "0123456789abcdef"

-- 24 digits.
abbrev pub is_id : Text → Bool
is_id s = length s == 24 && all_of (contains hex_digits) s

-- A text without a newline at its end.
abbrev pub before_feed : Text → Text
before_feed [] = []
before_feed (c ∷ []) = if c == 10 then [] else c ∷ []
before_feed (c ∷ d ∷ cs) = c ∷ before_feed (d ∷ cs)

-- 24 digits, or 24 digits and a newline.
abbrev pub is_id_or_line : Text → Bool
is_id_or_line s = is_id (before_feed s)

is_hex-contains : (c : ℕ) → is_hex c ≡ contains hex_digits c
is_hex-contains c = ground arith

hex_run-digits :
    (n : ℕ) (s : Text)
    → hex_run n s ≡ (length (before_feed s) == n && all_of (contains hex_digits) (before_feed s))
unfolding hex_run
hex_run-digits zero [] = refl
hex_run-digits zero (c ∷ []) = elim (Bool-cases (c == 10)) [
  | inl feed ↦ rw feed refl
  | inr other ↦ rw other (ground (arith, nat_eq.beq_iff 1 0))
]
hex_run-digits zero (c ∷ d ∷ cs) =
    ground (arith, nat_eq.beq_iff (length (c ∷ before_feed (d ∷ cs))) 0)
hex_run-digits (suc n) [] = ground (arith, nat_eq.beq_iff 0 (suc n))
hex_run-digits (suc n) (c ∷ []) = elim (Bool-cases (c == 10)) [
  | inl feed ↦
      let no_digit : is_hex c ≡ false = rw ((nat_eq.beq_iff c 10).0 feed) refl in
      rw (feed, no_digit) (ground (arith, nat_eq.beq_iff 0 (suc n)))
  | inr other ↦
      rw (other, ← is_hex-contains c, hex_run-digits n [])
        (ground (arith, nat_eq.beq_iff 0 n, nat_eq.beq_iff 1 (suc n)))
]
hex_run-digits (suc n) (c ∷ d ∷ cs) =
    rw (hex_run-digits n (d ∷ cs), ← is_hex-contains c)
      (ground (
        arith,
        nat_eq.beq_iff (length (before_feed (d ∷ cs))) n,
        nat_eq.beq_iff (length (c ∷ before_feed (d ∷ cs))) (suc n),
      ))

pub is_object_id-digits : (s : Text) → is_object_id s ≡ is_id_or_line s
unfolding is_object_id
is_object_id-digits s = hex_run-digits 24 s

before_feed-none : (s : Text) → contains s 10 ≡ false → before_feed s ≡ s
before_feed-none [] h = refl
before_feed-none (c ∷ []) h = let other : (c == 10) ≡ false = ground (arith, h) in rw other refl
before_feed-none (c ∷ d ∷ cs) h = ap (λ l. c ∷ l) (before_feed-none (d ∷ cs) (ground (arith, h)))

pub is_object_id-exact : (s : Text) → contains s 10 ≡ false → is_object_id s ≡ is_id s
is_object_id-exact s h = is_object_id-digits s ∙ ap is_id (before_feed-none s h)
