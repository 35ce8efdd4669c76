-- ===== src/Terminal/Dispatch.antt =====
-- A dispatch tries every WebSocket of the session once, whichever sends fail.
use claude_todo.Prelude.{
  ℕ, suc, ◌+◌, ◌<◌, String, ◌≡◌, sym, ap, ◌∙◌, subst, ◌≢◌, ◌↔◌, inl, inr, Bool, true, false, some,
  List, [], ◌∷◌, ◌++◌, not, filter, append_assoc, append_nil, arith, ltb, nat_eq, string_eq, ◌==◌,
  if◌then◌else◌, Bool-cases, length, contains, beq_refl,
}
use claude_todo.Terminal.{TerminalSessionRouter, bucket_of, Dispatched, count_sends, dispatch}
use claude_todo.Terminal.Registry.{holds, NoRepeat, IsClean, bucket_of-NoRepeat}

module _ (send : ℕ → Bool) where
  count_sends-attempts :
      (ws done : List ℕ) (a b : ℕ) → (count_sends send ws done a b).0 ≡ done ++ ws
  unfolding count_sends
  count_sends-attempts [] done a b = sym (append_nil done)
  count_sends-attempts (w ∷ ws) done a b =
      count_sends-attempts ws (done ++ w ∷ []) (if send w then suc a else a)
        (if send w then b else suc b)
      ∙ append_assoc done (w ∷ []) ws

  -- Each send that works is counted as such, and each that fails as failed.
  count_sends-counts :
      (ws done : List ℕ) (a b : ℕ)
      → ((count_sends send ws done a b).1 ≡ a + length (filter send ws))
        × ((count_sends send ws done a b).2 ≡ b + length (filter (λ w. not (send w)) ws))
  unfolding count_sends
  count_sends-counts [] done a b = (omega arith, omega arith)
  count_sends-counts (w ∷ ws) done a b = elim (Bool-cases (send w)) [
    | inl works ↦
        let later = count_sends-counts ws (done ++ w ∷ []) (suc a) b in
        simp works (omega (arith, later.0), omega (arith, later.1))
    | inr fails ↦
        let later = count_sends-counts ws (done ++ w ∷ []) a (suc b) in
        simp fails (omega (arith, later.0), omega (arith, later.1))
  ]

  some_works :
      (ws : List ℕ) (w : ℕ) → contains ws w ≡ true → send w ≡ true → 0 < length (filter send ws)
  some_works [] w h k = cc
  some_works (x ∷ xs) w h k = elim (Bool-cases (send x)) [
    | inl works ↦ simp works (omega arith)
    | inr fails ↦ elim (Bool-cases (x == w)) [
      | inl same ↦ absurd (cc (fails, k, ap send ((nat_eq.beq_iff x w).0 same)))
      | inr other ↦ simp fails (some_works xs w (ground (arith, other, h)) k)
    ]
  ]

  works_some :
      (ws : List ℕ)
      → 0 < length (filter send ws)
      → (w : ℕ) × (contains ws w ≡ true) × (send w ≡ true)
  works_some [] h = absurd (omega (arith, h))
  works_some (x ∷ xs) h = elim (Bool-cases (send x)) [
    | inl works ↦ (x, ground (arith, beq_refl x), works)
    | inr fails ↦
        let (w, listed, works) = works_some xs (simp fails at h) in
        (w, ground (arith, listed), works)
  ]

module _ (send : ℕ → Bool) (session_id : String) (r : TerminalSessionRouter)
    (named : session_id ≢ "") where
  named_test : (session_id == "") ≡ false
  named_test = ground (arith, string_eq.beq_iff session_id "", named)

  abbrev sent : Dispatched
  sent = dispatch send (some session_id) r

  attempts_bucket : sent.attempts ≡ bucket_of r session_id
  unfolding dispatch
  attempts_bucket =
      ground (arith, named_test, count_sends-attempts send (bucket_of r session_id) [] 0 0)

  ok_works : sent.ok_count ≡ length (filter send (bucket_of r session_id))
  unfolding dispatch
  ok_works = ground (arith, named_test, (count_sends-counts send (bucket_of r session_id) [] 0 0).0)

  fail_fails : sent.fail_count ≡ length (filter (λ w. not (send w)) (bucket_of r session_id))
  unfolding dispatch
  fail_fails =
      ground (arith, named_test, (count_sends-counts send (bucket_of r session_id) [] 0 0).1)

  received_count : sent.received ≡ ltb 0 sent.ok_count
  unfolding dispatch
  received_count = ground (arith, named_test)

-- In a clean router, the loop of a dispatch to a session with a name tries to send to the WebSockets
-- that are registered for it, to each once, whichever sends fail; it counts those whose send works
-- as sent, and those whose send raises as failed.
pub dispatch_fan_out :
    (send : ℕ → Bool) (session_id : String) (r : TerminalSessionRouter)
    → session_id ≢ ""
    → IsClean r
    → ((w : ℕ) → contains (dispatch send (some session_id) r).attempts w ≡ holds r session_id w)
      × NoRepeat (dispatch send (some session_id) r).attempts
      × ((dispatch send (some session_id) r).ok_count
          ≡ length (filter send (dispatch send (some session_id) r).attempts))
      × ((dispatch send (some session_id) r).fail_count
          ≡ length (filter (λ w. not (send w)) (dispatch send (some session_id) r).attempts))
dispatch_fan_out send session_id r named clean =
    let same = attempts_bucket send session_id r named in
    (
      λ w. ap (λ l. contains l w) same,
      subst NoRepeat (sym same) (bucket_of-NoRepeat r session_id clean),
      ok_works send session_id r named ∙ ap (λ l. length (filter send l)) (sym same),
      fail_fails send session_id r named
          ∙ ap (λ l. length (filter (λ w. not (send w)) l)) (sym same),
    )

-- A dispatch to a session with a name answers true exactly when some send to a WebSocket that is
-- registered for it works.
pub dispatch_received_iff :
    (send : ℕ → Bool) (session_id : String) (r : TerminalSessionRouter)
    → session_id ≢ ""
    → ((dispatch send (some session_id) r).received ≡ true)
      ↔ ((w : ℕ) × (holds r session_id w ≡ true) × (send w ≡ true))
dispatch_received_iff send session_id r named =
    let count = received_count send session_id r named in
    let ok = ok_works send session_id r named in
    (
      λ h. works_some send (bucket_of r session_id) (ground (arith, h, count, ok)),
      λ (w, held, works).
          count ∙ ground (arith, ok, some_works send (bucket_of r session_id) w held works),
    )
