-- ===== src/ErrorTracker/Envelope.antt =====
-- backend/app/services/error_tracker/envelope.py: `parse_envelope`. Bytes are numbers, and the body
-- from `pos` on is a list, so that `body.find` and the slices are functions of that list.
pub mod Reading
pub mod Framed
pub mod Printed
use Prim.Native.String.{◌++◌ as append}
use claude_todo.Prelude.{
  ℕ, zero, suc, ◌+◌, ◌≤◌, String, ◌≡◌, refl, Bool, true, false, not, Option, none, some, List, [],
  ◌∷◌, ◌++◌, ◌==◌, nat_eq, string_eq, if◌then◌else◌, length,
}
use claude_todo.Prelude.Dict.{lookup}

-- A value of a decoded object; floats, lists and dictionaries are in `Other`.
pub data Value (Other : Type 0) : Type 0 where
  null : Value Other
  boolean : Bool → Value Other
  int negative : ℕ → Value Other
  string : String → Value Other
  other : Other → Value Other

pub data Loaded (Other : Type 0) : Type 0 where
  dict : List (String × Value Other) → Loaded Other
  not_dict : Loaded Other

-- The package `orjson`, and what Python's `str` and truth say of the values that it makes. `loads`
-- is `none` where the package raises.
pub record Orjson : Type 1 where
  pub Other : Type 0
  pub truth : Other → Bool
  pub str_other : Other → String
  pub str_int : ℕ → String
  pub loads : List ℕ → Option (Loaded Other)

pub data EnvelopeParseError : Type 0 where
  empty_body invalid_json not_an_object truncated_header : EnvelopeParseError
  length_exceeds : ℕ → ℕ → EnvelopeParseError

pub data Parsed (A : Type 0) : Type 0 where
  parsed : A → Parsed A
  raised : EnvelopeParseError → Parsed A

infixl 5 ◌>>=◌
abbrev pub ◌>>=◌ : {A B : Type 0} → Parsed A → (A → Parsed B) → Parsed B
parsed a >>= f = f a
raised e >>= f = raised e

-- `find(b"\n")`: what is before it, and what is after it.
unfoldable pub split_line : List ℕ → Option (List ℕ × List ℕ)
split_line [] = none
split_line (b ∷ bs) =
    let later : Option (List ℕ × List ℕ) = elim (split_line bs) [
      | none ↦ none
      | some (line, rest) ↦ some (b ∷ line, rest)
    ] in
    if b == 10 then some ([], bs) else later

unfoldable pub skip_newlines : List ℕ → List ℕ
skip_newlines [] = []
skip_newlines (b ∷ bs) = let rest = skip_newlines bs in if b == 10 then rest else b ∷ bs

-- `body[pos:end]`, unless `end > n`.
unfoldable pub take_bytes : ℕ → List ℕ → Option (List ℕ × List ℕ)
take_bytes zero bs = some ([], bs)
take_bytes (suc n) [] = none
take_bytes (suc n) (b ∷ bs) = elim (take_bytes n bs) [
  | none ↦ none
  | some (taken, rest) ↦ some (b ∷ taken, rest)
]

abbrev pub drop_newline : List ℕ → List ℕ
drop_newline [] = []
drop_newline (b ∷ bs) = if b == 10 then bs else b ∷ bs

-- The slice of `n` bytes, and the optional newline behind it.
abbrev pub of_length : ℕ → List ℕ → Option (List ℕ × List ℕ) → Parsed (List ℕ × List ℕ)
of_length n rest none = raised (length_exceeds n (length rest))
of_length n rest (some (payload, left)) = parsed (payload, drop_newline left)

abbrev pub to_newline : List ℕ → Option (List ℕ × List ℕ) → Parsed (List ℕ × List ℕ)
to_newline rest none = parsed (rest, [])
to_newline rest (some p) = parsed p

-- The payload and the bytes behind it. The first argument is the length in the header.
unfoldable pub read_payload : Option ℕ → List ℕ → Parsed (List ℕ × List ℕ)
unfolding split_line take_bytes
read_payload (some n) rest = of_length n rest (take_bytes n rest)
read_payload none rest = to_newline rest (split_line rest)

module _ (j : Orjson) where
  open j use {Other, truth, str_other, str_int, loads}

  abbrev pub Header : Type 0
  Header = List (String × Value Other)

  pub record EnvelopeItem : Type 0 where
    pub type : String
    pub payload : List ℕ
    pub header : Header

  pub record Envelope : Type 0 where
    pub header : Header
    pub items : List EnvelopeItem

  abbrev pub decoded : Option (Loaded Other) → Parsed Header
  decoded none = raised invalid_json
  decoded (some not_dict) = raised not_an_object
  decoded (some (dict obj)) = parsed obj

  abbrev pub decode_json_line : List ℕ → Parsed Header
  decode_json_line line = decoded (loads line)

  -- `str(value or "")`
  abbrev pub str_or_empty : Option (Value Other) → String
  str_or_empty none = ""
  str_or_empty (some null) = ""
  str_or_empty (some (boolean b)) = if b then "True" else ""
  str_or_empty (some (int n)) = if n == 0 then "" else str_int n
  str_or_empty (some (negative n)) = append "-" (str_int (suc n))
  str_or_empty (some (string s)) = s
  str_or_empty (some (other x)) = if truth x then str_other x else ""

  -- `isinstance(length_raw, int) and length_raw >= 0`; a Boolean is an int.
  abbrev pub usable_length : Option (Value Other) → Option ℕ
  usable_length (some (int n)) = some n
  usable_length (some (boolean b)) = some (if b then 1 else 0)
  usable_length _ = none

  abbrev pub type_of : Header → String
  type_of header = str_or_empty (lookup "type" header)

  abbrev pub length_of : Header → Option ℕ
  length_of header = usable_length (lookup "length" header)

  abbrev pub item_of : Header → List ℕ × List ℕ → EnvelopeItem × List ℕ
  item_of header p = (record { type = type_of header; payload = p.0; header = header }, p.1)

  -- The line of an item's header, and what is behind it.
  abbrev pub read_from : Option (List ℕ × List ℕ) → Parsed (EnvelopeItem × List ℕ)
  read_from none = raised truncated_header
  read_from (some (line, rest)) = decode_json_line line >>= λ header.
      read_payload (length_of header) rest >>= λ p. parsed (item_of header p)

  unfoldable pub read_item : List ℕ → Parsed (EnvelopeItem × List ℕ)
  unfolding read_payload
  read_item body = read_from (split_line body)

  -- The body of `while pos < n`, behind the blank lines.
  abbrev pub round :
      (List ℕ → List EnvelopeItem → Parsed (List EnvelopeItem))
      → List EnvelopeItem
      → List ℕ
      → Parsed (List EnvelopeItem)
  round again items [] = parsed items
  round again items (b ∷ bs) =
      read_item (b ∷ bs) >>= λ (item, rest). again rest (items ++ item ∷ [])

  -- A round that goes on has read the newline behind an item's header.
  unfoldable pub read_items : ℕ → List ℕ → List EnvelopeItem → Parsed (List EnvelopeItem)
  unfolding skip_newlines read_item
  read_items zero body items = parsed items
  read_items (suc fuel) body items = round (read_items fuel) items (skip_newlines body)

  -- The line of the envelope's header, and what is behind it.
  abbrev pub parse_from : List ℕ → Option (List ℕ × List ℕ) → Parsed Envelope
  parse_from body none =
      decode_json_line body >>= λ header. parsed (record { header = header; items = [] })
  parse_from body (some (line, rest)) = decode_json_line line >>= λ header.
      read_items (length rest) rest [] >>= λ items.
      parsed (record { header = header; items = items })

  unfoldable pub parse_envelope : List ℕ → Parsed Envelope
  unfolding read_items
  parse_envelope [] = raised empty_body
  parse_envelope (b ∷ bs) = parse_from (b ∷ bs) (split_line (b ∷ bs))
