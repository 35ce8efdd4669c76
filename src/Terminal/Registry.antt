-- ===== src/Terminal/Registry.antt =====
-- Which WebSockets of which session are registered.
use claude_todo.Prelude.{
  ℕ, String, ◌≡◌, refl, inl, inr, Bool, true, false, not, ◌&&◌, ◌||◌, Option, none, some, List, [],
  ◌∷◌, arith, nat_eq, string_eq, ◌==◌, Bool-cases, contains, without, contains-without,
}
use claude_todo.Prelude.Dict.{
  lookup, erase, lookup-insert, lookup-erase, AllValues, AllValues-insert, AllValues-erase,
  AllValues-lookup,
}
use claude_todo.Terminal.{
  TerminalSessionRouter, add_ws, bucket_of, register, is_empty, discard, or_empty, unregister_from,
  unregister,
}

-- The pairs that the router holds.
abbrev pub holds : TerminalSessionRouter → String → ℕ → Bool
holds r session_id ws = contains (bucket_of r session_id) ws

contains-add_ws :
    (w x : ℕ) (bucket : List ℕ) → contains (add_ws w bucket) x ≡ (w == x || contains bucket x)
contains-add_ws w x bucket = elim (Bool-cases (contains bucket w)) [
  | inl old ↦ rw old (ground (arith, nat_eq.beq_iff w x, old))
  | inr new ↦ rw new refl
]

-- After `register` the router holds the pair that was registered and those that it held before,
-- and no other.
pub holds-register :
    (session_id other : String) (ws w : ℕ) (r : TerminalSessionRouter)
    → holds (register session_id ws r) other w
      ≡ ((session_id == other && ws == w) || holds r other w)
unfolding register
holds-register session_id other ws w r = ground (
  arith,
  lookup-insert session_id other (add_ws ws (bucket_of r session_id)) r.browsers,
  string_eq.beq_iff session_id other,
  contains-add_ws ws w (bucket_of r session_id),
)

is_empty-contains : (bucket : List ℕ) (w : ℕ) → is_empty bucket ≡ true → contains bucket w ≡ false
is_empty-contains [] w h = refl
is_empty-contains (x ∷ xs) w h = cc

holds-discard :
    (session_id other : String) (ws w : ℕ) (bucket : List ℕ) (r : TerminalSessionRouter)
    → lookup session_id r.browsers ≡ some bucket
    → holds (discard session_id ws bucket r) other w
      ≡ (not (session_id == other && ws == w) && holds r other w)
holds-discard session_id other ws w bucket r found = ground (
  arith,
  found,
  lookup-erase session_id other r.browsers,
  lookup-insert session_id other (without ws bucket) r.browsers,
  contains-without ws w bucket,
  is_empty-contains (without ws bucket) w,
  string_eq.beq_iff session_id other,
)

-- After `unregister` of a WebSocket the router holds what it held before but that pair.
pub holds-unregister :
    (session_id other : String) (ws w : ℕ) (r : TerminalSessionRouter)
    → holds (unregister session_id (some ws) r) other w
      ≡ (not (session_id == other && ws == w) && holds r other w)
unfolding unregister
holds-unregister session_id other ws w r = go (lookup session_id r.browsers) refl
  where
    go :
        (o : Option (List ℕ))
        → lookup session_id r.browsers ≡ o
        → holds (unregister_from session_id (some ws) r o) other w
          ≡ (not (session_id == other && ws == w) && holds r other w)
    go none found = ground (arith, found, string_eq.beq_iff session_id other)
    go (some bucket) found = elim (Bool-cases (contains bucket ws)) [
      | inl there ↦ simp there (holds-discard session_id other ws w bucket r found)
      | inr absent ↦
          simp absent
            (ground (arith, found, absent, string_eq.beq_iff session_id other, nat_eq.beq_iff ws w))
    ]

-- After `unregister` with no WebSocket the router holds nothing of the session, and what it held
-- of the others.
pub holds-unregister_session :
    (session_id other : String) (w : ℕ) (r : TerminalSessionRouter)
    → holds (unregister session_id none r) other w ≡ (not (session_id == other) && holds r other w)
unfolding unregister
holds-unregister_session session_id other w r = go (lookup session_id r.browsers) refl
  where
    go :
        (o : Option (List ℕ))
        → lookup session_id r.browsers ≡ o
        → holds (unregister_from session_id none r o) other w
          ≡ (not (session_id == other) && holds r other w)
    go none found = ground (arith, found, string_eq.beq_iff session_id other)
    go (some bucket) found =
        ground (
          arith,
          found,
          lookup-erase session_id other r.browsers,
          string_eq.beq_iff session_id other,
        )

-- Each WebSocket once, and at least one.
abbrev pub NoRepeat : List ℕ → Type 0
NoRepeat [] = Unit
NoRepeat (w ∷ ws) = (contains ws w ≡ false) × NoRepeat ws

abbrev pub IsBucket : List ℕ → Type 0
IsBucket bucket = (is_empty bucket ≡ false) × NoRepeat bucket

pub record IsClean (r : TerminalSessionRouter) : Type 0 where
  pub buckets : AllValues IsBucket r.browsers

NoRepeat-without : (ws : ℕ) (bucket : List ℕ) → NoRepeat bucket → NoRepeat (without ws bucket)
NoRepeat-without ws [] h = tt
NoRepeat-without ws (x ∷ xs) h = elim (Bool-cases (x == ws)) [
  | inl same ↦ rw same (NoRepeat-without ws xs h.1)
  | inr other ↦ rw other (ground (arith, contains-without ws x xs, h.0), NoRepeat-without ws xs h.1)
]

add_ws-IsBucket : (ws : ℕ) (bucket : List ℕ) → NoRepeat bucket → IsBucket (add_ws ws bucket)
add_ws-IsBucket ws bucket h = elim (Bool-cases (contains bucket ws)) [
  | inl old ↦ rw old (not_empty bucket old, h)
  | inr new ↦ rw new (refl, (new, h))
]
  where
    not_empty : (l : List ℕ) → contains l ws ≡ true → is_empty l ≡ false
    not_empty [] k = cc
    not_empty (x ∷ xs) k = refl

pub bucket_of-NoRepeat :
    (r : TerminalSessionRouter) (session_id : String)
    → IsClean r
    → NoRepeat (bucket_of r session_id)
bucket_of-NoRepeat r session_id h = go (lookup session_id r.browsers) refl
  where
    go : (o : Option (List ℕ)) → lookup session_id r.browsers ≡ o → NoRepeat (or_empty o)
    go none found = tt
    go (some bucket) found =
        (AllValues-lookup IsBucket session_id bucket r.browsers h.buckets found).1

-- `register` keeps every bucket without repetition and with at least one WebSocket.
pub register-IsClean :
    (session_id : String) (ws : ℕ) (r : TerminalSessionRouter)
    → IsClean r
    → IsClean (register session_id ws r)
unfolding register
register-IsClean session_id ws r h = record {
  buckets =
      AllValues-insert IsBucket session_id (add_ws ws (bucket_of r session_id)) r.browsers
        (add_ws-IsBucket ws (bucket_of r session_id) (bucket_of-NoRepeat r session_id h)) h.buckets;
}

-- `unregister` keeps every bucket without repetition and with at least one WebSocket, so that a
-- session whose last WebSocket goes leaves no empty bucket.
pub unregister-IsClean :
    (session_id : String) (ws : Option ℕ) (r : TerminalSessionRouter)
    → IsClean r
    → IsClean (unregister session_id ws r)
unfolding unregister
unregister-IsClean session_id ws r h = go ws (lookup session_id r.browsers) refl
  where
    erased : IsClean (record { browsers = erase session_id r.browsers })
    erased = record { buckets = AllValues-erase IsBucket session_id r.browsers h.buckets }

    go :
        (o : Option ℕ) (found : Option (List ℕ))
        → lookup session_id r.browsers ≡ found
        → IsClean (unregister_from session_id o r found)
    go none none at = h
    go (some w) none at = h
    go none (some bucket) at = erased
    go (some w) (some bucket) at = elim (Bool-cases (contains bucket w)) [
      | inr absent ↦ simp absent h
      | inl there ↦ elim (Bool-cases (is_empty (without w bucket))) [
        | inl last ↦ simp (there, last) erased
        | inr more ↦
            simp (there, more)
              (record {
                buckets =
                    AllValues-insert IsBucket session_id (without w bucket) r.browsers
                      (
                        more,
                        NoRepeat-without w bucket
                            (AllValues-lookup IsBucket session_id bucket r.browsers h.buckets at).1,
                      )
                      h.buckets;
              })
      ]
    ]
