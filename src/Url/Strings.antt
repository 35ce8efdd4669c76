-- ===== src/Url/Strings.antt =====
-- Texts as lists of code points, with the methods of Python's `str` that
-- backend/app/lib/url_contract.py and the library under it call.
use Prim.Native.Char.{code}
use Prim.Native.String.{String}
use claude_todo.Prelude.{
  ℕ, ◌≡◌, ◌↔◌, refl, Bool, true, false, ◌&&◌, Option, none, some, List, [], ◌∷◌, ◌++◌, ◌==◌, Eq,
  nat_eq, if◌then◌else◌, leb, arith,
}

abbrev pub Text : Type 0
Text = List ℕ

abbrev pub codes : String → Text
codes String.[] = []
codes (String.◌∷◌ c s) = code c ∷ codes s

abbrev pub text_same : Text → Text → Bool
text_same [] [] = true
text_same (x ∷ xs) (y ∷ ys) = x == y && text_same xs ys
text_same _ _ = false

pub text_same_iff : (xs ys : Text) → (text_same xs ys ≡ true) ↔ (xs ≡ ys)
text_same_iff [] [] = (λ h. refl, λ h. refl)
text_same_iff [] (y ∷ ys) = (λ h. cc, λ h. cc)
text_same_iff (x ∷ xs) [] = (λ h. cc, λ h. cc)
text_same_iff (x ∷ xs) (y ∷ ys) =
    let same = text_same_iff xs ys in
    (
      λ h. cc ((nat_eq.beq_iff x y).0 (ground (arith, h)), same.0 (ground (arith, h))),
      λ e. ground (arith, same.1 (cc e), (nat_eq.beq_iff x y).1 (cc e)),
    )

instance abbrev pub text_eq : Eq Text
text_eq = record { beq = text_same; beq_iff = text_same_iff }

-- `partition` at a character: what is before it, and what is behind it if it is there.
unfoldable pub partition : ℕ → Text → Text × Option Text
partition c [] = ([], none)
partition c (x ∷ xs) =
    let (before, behind) = partition c xs in if x == c then ([], some xs) else (x ∷ before, behind)

-- `split` at a character.
unfoldable pub split : ℕ → Text → List Text
split c [] = [] ∷ []
split c (x ∷ xs) =
    let rest = split c xs in
    if x == c
    then [] ∷ rest
    else elim rest [ [] ↦ (x ∷ []) ∷ [] | segment ∷ segments ↦ (x ∷ segment) ∷ segments ]

-- `join`, with a character between.
abbrev pub join : ℕ → List Text → Text
join c [] = []
join c (segment ∷ []) = segment
join c (segment ∷ next ∷ segments) = segment ++ c ∷ join c (next ∷ segments)

unfoldable pub lstrip : (ℕ → Bool) → Text → Text
lstrip p [] = []
lstrip p (x ∷ xs) = let rest = lstrip p xs in if p x then rest else x ∷ xs

unfoldable pub rstrip : (ℕ → Bool) → Text → Text
rstrip p [] = []
rstrip p (x ∷ xs) = elim (rstrip p xs) [ [] ↦ if p x then [] else x ∷ [] | y ∷ ys ↦ x ∷ y ∷ ys ]

abbrev pub all_of : (ℕ → Bool) → Text → Bool
all_of p [] = true
all_of p (x ∷ xs) = p x && all_of p xs

abbrev pub is_lower : ℕ → Bool
is_lower c = leb b'a' c && leb c b'z'

abbrev pub is_upper : ℕ → Bool
is_upper c = leb b'A' c && leb c b'Z'

abbrev pub is_digit : ℕ → Bool
is_digit c = leb b'0' c && leb c b'9'
