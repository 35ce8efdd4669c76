-- ===== src/ErrorTracker/Envelope/Framed.antt =====
-- What every envelope that the parser accepts looks like, and that its loop has rounds enough.
use claude_todo.Prelude.{
  ℕ, zero, suc, ◌+◌, ◌≤◌, ◌≡◌, refl, subst, ap, Option, none, some, List, [], ◌∷◌, ◌++◌, length,
  length-append, All, arith, inl, inr, ◌⊎◌,
}
use claude_todo.ErrorTracker.Envelope.{
  Orjson, split_line, skip_newlines, take_bytes, Parsed, parsed, raised, ◌>>=◌, of_length,
  to_newline, read_from, parse_from, read_payload, EnvelopeItem, Envelope, decode_json_line,
  type_of, length_of, read_item, round, read_items, parse_envelope, EnvelopeParseError,
}
use claude_todo.ErrorTracker.Envelope.Reading.{
  Ends, split_line-Line, split_line-none, length-skip_newlines, length-drop_newline,
  take_bytes-some,
}

Parsed-cases :
    {A : Type 0} (m : Parsed A)
    → ((a : A) × (m ≡ parsed a)) ⊎ ((e : EnvelopeParseError) × (m ≡ raised e))
Parsed-cases (parsed a) = inl (a, refl)
Parsed-cases (raised e) = inr (e, refl)

parsed_injective : {A : Type 0} {a b : A} → parsed a ≡ parsed b → a ≡ b
parsed_injective h = cc

-- A step that succeeds after another: the other succeeded.
bound :
    {A B : Type 0} (m : Parsed A) (f : A → Parsed B) (b : B)
    → (m >>= f) ≡ parsed b
    → (a : A) × (m ≡ parsed a) × (f a ≡ parsed b)
bound (parsed a) f b h = (a, refl, h)
bound (raised e) f b h = cc

abbrev pub Fits : Option ℕ → List ℕ → List ℕ × List ℕ → Type 0
Fits l rest p = Ends l p.0 × (length p.0 + length p.1 ≤ length rest)

read_payload-Fits :
    (l : Option ℕ) (rest : List ℕ) (p : List ℕ × List ℕ)
    → read_payload l rest ≡ parsed p
    → Fits l rest p
unfolding read_payload
read_payload-Fits (some n) rest p h = go (take_bytes n rest) refl h
  where
    go :
        (o : Option (List ℕ × List ℕ))
        → take_bytes n rest ≡ o
        → of_length n rest o ≡ parsed p
        → Fits (some n) rest p
    go none e k = cc
    go (some q) e k =
        let (size, bytes) = take_bytes-some n rest q e in
        subst (Fits (some n) rest) (parsed_injective k)
          (size, omega (arith, ap length bytes, length-append q.0 q.1, length-drop_newline q.1))
read_payload-Fits none rest p h = go (split_line rest) refl h
  where
    go :
        (o : Option (List ℕ × List ℕ))
        → split_line rest ≡ o
        → to_newline rest o ≡ parsed p
        → Fits none rest p
    go none e k = subst (Fits none rest) (parsed_injective k) (split_line-none rest e, omega arith)
    go (some q) e k =
        let l = split_line-Line rest q e in
        subst (Fits none rest) (parsed_injective k)
          (l.clean, omega (arith, ap length l.bytes, length-append q.0 (10 ∷ q.1)))

module _ (j : Orjson) where
  -- The type is that of the header, and the payload ends as the header says.
  pub record IsFramed (item : EnvelopeItem j) : Type 0 where
    pub typed : item.type ≡ type_of j item.header
    pub ends : Ends (length_of j item.header) item.payload

  abbrev ReadFrom : List ℕ → EnvelopeItem j × List ℕ → Type 0
  ReadFrom body q = IsFramed q.0 × (suc (length q.0.payload + length q.1) ≤ length body)

  read_item-ReadFrom :
      (body : List ℕ) (q : EnvelopeItem j × List ℕ) → read_item j body ≡ parsed q → ReadFrom body q
  unfolding read_item
  read_item-ReadFrom body q h = go (split_line body) refl h
    where
      go :
          (o : Option (List ℕ × List ℕ))
          → split_line body ≡ o
          → read_from j o ≡ parsed q
          → ReadFrom body q
      go none e k = cc
      go (some p) e k =
          let l = split_line-Line body p e in
          let (header, loaded, then) = bound (decode_json_line j p.0) _ q k in
          let (read, at, made) = bound (read_payload (length_of j header) p.1) _ q then in
          let (ends, size) = read_payload-Fits (length_of j header) p.1 read at in
          subst (ReadFrom body) (parsed_injective made) (
            record { typed = refl; ends = ends },
            omega (arith, size, ap length l.bytes, length-append p.0 (10 ∷ p.1)),
          )

  abbrev pub payload_bytes : List (EnvelopeItem j) → ℕ
  payload_bytes [] = 0
  payload_bytes (item ∷ items) = length item.payload + payload_bytes items

  All-snoc :
      (items : List (EnvelopeItem j)) (item : EnvelopeItem j)
      → All IsFramed items
      → IsFramed item
      → All IsFramed (items ++ item ∷ [])
  All-snoc [] item a i = (i, tt)
  All-snoc (x ∷ xs) item a i = (a.0, All-snoc xs item a.1 i)

  payload_bytes-snoc :
      (items : List (EnvelopeItem j)) (item : EnvelopeItem j)
      → payload_bytes (items ++ item ∷ []) ≡ payload_bytes items + length item.payload
  payload_bytes-snoc [] item = omega arith
  payload_bytes-snoc (x ∷ xs) item = omega (arith, payload_bytes-snoc xs item)

  read_items-IsFramed :
      (fuel : ℕ) (body : List ℕ) (items out : List (EnvelopeItem j))
      → All IsFramed items
      → read_items j fuel body items ≡ parsed out
      → All IsFramed out × (payload_bytes out ≤ payload_bytes items + length body)
  unfolding read_items
  read_items-IsFramed zero body items out a h =
      subst (λ l. All IsFramed l × (payload_bytes l ≤ payload_bytes items + length body))
        (parsed_injective h) (a, omega arith)
  read_items-IsFramed (suc fuel) body items out a h =
      go (skip_newlines body) refl (λ rest l. read_items-IsFramed fuel rest l out) h
    where
      go :
          (w : List ℕ)
          → skip_newlines body ≡ w
          → ((rest : List ℕ) (l : List (EnvelopeItem j))
              → All IsFramed l
              → read_items j fuel rest l ≡ parsed out
              → All IsFramed out × (payload_bytes out ≤ payload_bytes l + length rest))
          → round j (read_items j fuel) items w ≡ parsed out
          → All IsFramed out × (payload_bytes out ≤ payload_bytes items + length body)
      go [] e again k =
          subst (λ l. All IsFramed l × (payload_bytes l ≤ payload_bytes items + length body))
            (parsed_injective k) (a, omega arith)
      go (b ∷ bs) e again k =
          let (q, read, more) = bound (read_item j (b ∷ bs)) _ out k in
          let (framed, size) = read_item-ReadFrom (b ∷ bs) q read in
          let (all, total) = again q.1 (items ++ q.0 ∷ []) (All-snoc items q.0 a framed) more in
          (
            all,
            omega (
              arith,
              total,
              size,
              payload_bytes-snoc items q.0,
              ap length e,
              length-skip_newlines body,
            ),
          )

  -- The loop over the items gives one result for all numbers of rounds from the number of bytes on,
  -- so that the rounds that `parse_envelope` gives it are enough.
  pub read_items_fuel :
      (fuel more : ℕ) (body : List ℕ) (items : List (EnvelopeItem j))
      → length body ≤ fuel
      → length body ≤ more
      → read_items j fuel body items ≡ read_items j more body items
  unfolding read_items
  read_items_fuel zero zero body items h k = refl
  read_items_fuel zero (suc more) [] items h k = refl
  read_items_fuel (suc fuel) zero [] items h k = refl
  read_items_fuel zero (suc more) (b ∷ bs) items h k = absurd (omega (arith, h))
  read_items_fuel (suc fuel) zero (b ∷ bs) items h k = absurd (omega (arith, k))
  read_items_fuel (suc fuel) (suc more) body items h k =
      go (skip_newlines body) refl (λ rest l. read_items_fuel fuel more rest l)
    where
      go :
          (w : List ℕ)
          → skip_newlines body ≡ w
          → ((rest : List ℕ) (l : List (EnvelopeItem j))
              → length rest ≤ fuel
              → length rest ≤ more
              → read_items j fuel rest l ≡ read_items j more rest l)
          → round j (read_items j fuel) items w ≡ round j (read_items j more) items w
      go [] e again = refl
      go (b ∷ bs) e again = same (read_item j (b ∷ bs)) refl
        where
          same :
              (m : Parsed (EnvelopeItem j × List ℕ))
              → read_item j (b ∷ bs) ≡ m
              → (m >>= λ (item, rest). read_items j fuel rest (items ++ item ∷ []))
                ≡ (m >>= λ (item, rest). read_items j more rest (items ++ item ∷ []))
          same (raised x) at = refl
          same (parsed q) at =
              let (framed, size) = read_item-ReadFrom (b ∷ bs) q at in
              again q.1 (items ++ q.0 ∷ [])
                (omega (arith, size, ap length e, length-skip_newlines body, h))
                (omega (arith, size, ap length e, length-skip_newlines body, k))

  -- In each envelope that the parser makes, whatever the bytes: every item has the type of its
  -- header, and the length that the header says or, where it says none, no newline in its payload;
  -- and the payloads together are no longer than the body.
  pub parse_envelope-IsFramed :
      (body : List ℕ) (e : Envelope j)
      → parse_envelope j body ≡ parsed e
      → All IsFramed e.items × (payload_bytes e.items ≤ length body)
  unfolding parse_envelope
  parse_envelope-IsFramed [] e h = cc
  parse_envelope-IsFramed (b ∷ bs) e h = go (split_line (b ∷ bs)) refl h
    where
      Good : Envelope j → Type 0
      Good x = All IsFramed x.items × (payload_bytes x.items ≤ length (b ∷ bs))

      go :
          (o : Option (List ℕ × List ℕ))
          → split_line (b ∷ bs) ≡ o
          → parse_from j (b ∷ bs) o ≡ parsed e
          → Good e
      go none at k =
          let (header, loaded, made) = bound (decode_json_line j (b ∷ bs)) _ e k in
          subst Good (parsed_injective made) (tt, omega arith)
      go (some p) at k =
          let (header, loaded, then) = bound (decode_json_line j p.0) _ e k in
          let (items, read, made) = bound (read_items j (length p.1) p.1 []) _ e then in
          let (framed, size) = read_items-IsFramed (length p.1) p.1 [] items tt read in
          let l = split_line-Line (b ∷ bs) p at in
          subst Good (parsed_injective made)
            (framed, omega (arith, size, ap length l.bytes, length-append p.0 (10 ∷ p.1)))
