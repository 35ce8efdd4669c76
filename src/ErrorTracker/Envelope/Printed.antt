-- ===== src/ErrorTracker/Envelope/Printed.antt =====
-- The wire format of envelopes as a printer, which the parser undoes.
use claude_todo.Prelude.{
  append_nil, append_assoc, ℕ, zero, suc, ◌≤◌, ◌≡◌, refl, sym, subst, ap, ◌∙◌, Option, none, some,
  List, [], ◌∷◌, ◌++◌, length, length-append, arith, inl, inr, contains, false, nat_eq, ◌==◌,
  Bool-cases,
}
use claude_todo.ErrorTracker.Envelope.{
  Orjson, skip_newlines, take_bytes, Parsed, parsed, of_length, read_payload, Header, EnvelopeItem,
  length_of, read_item, round, read_items, parse_envelope, dict,
}
use claude_todo.ErrorTracker.Envelope.Reading.{Ends, split_line-append, take_bytes-append}
use claude_todo.ErrorTracker.Envelope.Framed.{IsFramed}

-- A payload with a newline behind it is read back.
read_payload-append :
    (l : Option ℕ) (payload rest : List ℕ)
    → Ends l payload
    → read_payload l (payload ++ 10 ∷ rest) ≡ parsed (payload, rest)
unfolding read_payload
read_payload-append none payload rest h = rw (split_line-append payload rest h) refl
read_payload-append (some n) payload rest h =
    subst
      (λ k.
        of_length k (payload ++ 10 ∷ rest) (take_bytes k (payload ++ 10 ∷ rest))
        ≡ parsed (payload, rest))
      h (rw (take_bytes-append payload (10 ∷ rest)) refl)

module _ (j : Orjson) where
  -- The line of a header is not empty, holds no newline, and is JSON for the header.
  pub record IsLine (line : List ℕ) (header : Header j) : Type 0 where
    pub clean : contains line 10 ≡ false
    pub longer : (length line ≡ 0) → ⊥
    pub loaded : j.loads line ≡ some (dict header)

  abbrev pub Lines : Type 0
  Lines = List (List ℕ × EnvelopeItem j)

  abbrev pub print_items : Lines → List ℕ
  print_items [] = []
  print_items ((line, item) ∷ rest) = line ++ 10 ∷ (item.payload ++ 10 ∷ print_items rest)

  abbrev pub IsPrintable : Lines → Type 0
  IsPrintable [] = Unit
  IsPrintable ((line, item) ∷ rest) = IsLine line item.header × IsFramed j item × IsPrintable rest

  abbrev pub items_of : Lines → List (EnvelopeItem j)
  items_of [] = []
  items_of ((line, item) ∷ rest) = item ∷ items_of rest

  read_item-append :
      (line : List ℕ) (item : EnvelopeItem j) (rest : List ℕ)
      → IsLine line item.header
      → IsFramed j item
      → read_item j (line ++ 10 ∷ (item.payload ++ 10 ∷ rest)) ≡ parsed (item, rest)
  unfolding read_item
  read_item-append line item rest l f =
      rw
        (
          split_line-append line (item.payload ++ 10 ∷ rest) l.clean,
          l.loaded,
          read_payload-append (length_of j item.header) item.payload rest f.ends,
        )
        (ap
          (λ ty. parsed (record { type = ty; payload = item.payload; header = item.header }, rest))
          (sym f.typed))

  skip_newlines-line :
      (line rest : List ℕ)
      → contains line 10 ≡ false
      → ((length line ≡ 0) → ⊥)
      → skip_newlines (line ++ rest) ≡ line ++ rest
  unfolding skip_newlines
  skip_newlines-line [] rest clean longer = absurd (longer refl)
  skip_newlines-line (b ∷ bs) rest clean longer = elim (Bool-cases (b == 10)) [
    | inl is ↦ absurd (ground (arith, clean, is))
    | inr other ↦ rw other refl
  ]

  round-line :
      (again : List ℕ → List (EnvelopeItem j) → Parsed (List (EnvelopeItem j)))
      (items : List (EnvelopeItem j)) (item : EnvelopeItem j) (text rest : List ℕ)
      → ((length text ≡ 0) → ⊥)
      → read_item j text ≡ parsed (item, rest)
      → round j again items text ≡ again rest (items ++ item ∷ [])
  round-line again items item [] rest longer h = absurd (longer refl)
  round-line again items item (b ∷ bs) rest longer h = rw h refl

  read_items-print :
      (fuel : ℕ) (ls : Lines) (items : List (EnvelopeItem j))
      → IsPrintable ls
      → length (print_items ls) ≤ fuel
      → read_items j fuel (print_items ls) items ≡ parsed (items ++ items_of ls)
  unfolding read_items
  read_items-print zero [] items p h = ap parsed (sym (append_nil items))
  read_items-print (suc fuel) [] items p h = ap parsed (sym (append_nil items))
  read_items-print zero ((line, item) ∷ rest) items p h =
      absurd (omega (arith, h, length-append line (10 ∷ (item.payload ++ 10 ∷ print_items rest))))
  read_items-print (suc fuel) ((line, item) ∷ rest) items p h =
      let tail = 10 ∷ (item.payload ++ 10 ∷ print_items rest) in
      let size = length-append line tail in
      let size' = length-append item.payload (10 ∷ print_items rest) in
      ap (round j (read_items j fuel) items) (skip_newlines-line line tail p.0.clean p.0.longer)
      ∙ round-line (read_items j fuel) items item (line ++ tail) (print_items rest)
          (λ e. omega (arith, e, size)) (read_item-append line item (print_items rest) p.0 p.1)
      ∙ read_items-print fuel rest (items ++ item ∷ []) p.2 (omega (arith, h, size, size'))
      ∙ ap parsed (append_assoc items (item ∷ []) (items_of rest))

  -- The body of an envelope: the line of its header, and the lines and payloads of its items.
  abbrev pub print_envelope : List ℕ → Lines → List ℕ
  print_envelope line ls = line ++ 10 ∷ print_items ls

  -- The parser makes of a printed envelope its header and its items. The lines of the headers are
  -- not empty and hold no newline, and `orjson` reads the headers from them; every item has the
  -- type that its header names, and a payload of the length that its header says or, where it says
  -- none, without a newline.
  pub parse_envelope-print_envelope :
      (line : List ℕ) (header : Header j) (ls : Lines)
      → IsLine line header
      → IsPrintable ls
      → parse_envelope j (print_envelope line ls)
        ≡ parsed (record { header = header; items = items_of ls })
  unfolding parse_envelope
  parse_envelope-print_envelope [] header ls l p = absurd (l.longer refl)
  parse_envelope-print_envelope (b ∷ bs) header ls l p =
      rw
        (
          split_line-append (b ∷ bs) (print_items ls) l.clean,
          l.loaded,
          read_items-print (length (print_items ls)) ls [] p (omega arith),
        )
        refl
