-- ===== src/Agents/Routed.antt =====
-- Which response a call of `send_request` returns.
use claude_todo.Prelude.{
  ℕ, String, ◌≡◌, refl, sym, ap, subst, ◌∙◌, inl, inr, true, false, Option, none, some, List, [],
  ◌∷◌, nat_eq, string_eq, ◌==◌, arith, Elem, Bool-cases, some_injective,
}
use claude_todo.Prelude.Dict.{lookup, insert, erase, lookup-insert, lookup-erase}
use claude_todo.Agents.{
  Message, Future, waiting, answered, failed, LocalAgentTransport, unregister, wake_connect_waiters,
  resolve_request, resolve_named, resolve_with, can_resolve, start_shutdown, flush_all, flush_one,
  fail_future, rids_of, increment_pending, decrement_pending, is_current,
}
use claude_todo.Agents.Calls.{
  Phase, connecting, queued, locking, asked, AgentError, Outcome, returned, raised, Call, Config,
  World, start, forget, finish, end_call, Event, moving, semaphore_got, responding, run, outcome_of,
  read_reply, has_error,
}
use claude_todo.Agents.Steps.{
  new_call, Outside, is_publish, is_old_closed, is_unregister, is_wake, is_resolve, is_shutdown,
  Change, refused, noted, admitted, arrived, missed, asking, writing, given_up, answered_call,
  outside, run-invariant, All-self,
}

abbrev pub rid_of : Phase → Option String
rid_of connecting = none
rid_of queued = none
rid_of (locking rid) = some rid
rid_of (asked rid) = some rid

module _ (events : List Event) where
  -- An answer that a future holds came with the id of the future.
  abbrev pub AnswersFit : LocalAgentTransport → Type 0
  AnswersFit t =
      (rid : String) (msg : Message)
      → lookup rid t.futures ≡ some (answered msg)
      → (msg.request_id ≡ some rid) × Elem (responding msg) events

  -- What a call returned was the payload of a response to the id that it had drawn.
  abbrev pub Replied : ℕ → List (String × String) → Type 0
  Replied n inner =
      (rid : String) × (msg : Message) × Elem (moving n (semaphore_got rid)) events
      × Elem (responding msg) events
      × (msg.request_id ≡ some rid)
      × (msg.payload ≡ some inner)

  pub record IsRouted (w : World) : Type 0 where
    pub answers : AnswersFit w.transport
    pub drawn :
        (n : ℕ) (call : Call) (rid : String)
        → lookup n w.calls ≡ some call
        → rid_of call.phase ≡ some rid
        → Elem (moving n (semaphore_got rid)) events
    pub replies :
        (n : ℕ) (inner : List (String × String))
        → Elem (n, returned inner) w.outcomes
        → Replied n inner

  fail_future-answered :
      (agent_id : String) (o : Option Future) (msg : Message)
      → fail_future agent_id o ≡ answered msg
      → o ≡ some (answered msg)
  fail_future-answered agent_id none msg e = cc
  fail_future-answered agent_id (some waiting) msg e = cc
  fail_future-answered agent_id (some (answered own)) msg e = cc e
  fail_future-answered agent_id (some (failed other)) msg e = cc

  flush_one-AnswersFit :
      (agent_id rid : String) (t : LocalAgentTransport)
      → AnswersFit t
      → AnswersFit (flush_one agent_id rid t)
  flush_one-AnswersFit agent_id rid t h other msg e = elim (Bool-cases (rid == other)) [
    | inl same ↦
        let here : some (fail_future agent_id (lookup rid t.futures)) ≡ some (answered msg) =
          ground (
            arith,
            lookup-insert rid other (fail_future agent_id (lookup rid t.futures)) t.futures,
            same,
            e,
          ) in
        h other msg (
          ap (λ r. lookup r t.futures) (sym ((string_eq.beq_iff rid other).0 same))
          ∙ fail_future-answered agent_id (lookup rid t.futures) msg (some_injective here))
    | inr apart ↦ h other msg (
        ground (
          arith,
          lookup-insert rid other (fail_future agent_id (lookup rid t.futures)) t.futures,
          apart,
          e,
        ))
  ]

  flush_all-AnswersFit :
      (agent_id : String) (rids : List String) (t : LocalAgentTransport)
      → AnswersFit t
      → AnswersFit (flush_all agent_id rids t)
  unfolding flush_all
  flush_all-AnswersFit agent_id [] t h = h
  flush_all-AnswersFit agent_id (rid ∷ rids) t h =
      flush_all-AnswersFit agent_id rids (flush_one agent_id rid t)
        (flush_one-AnswersFit agent_id rid t h)

  resolve_request-AnswersFit :
      (msg : Message) (t : LocalAgentTransport)
      → Elem (responding msg) events
      → AnswersFit t
      → AnswersFit (resolve_request msg t).1
  unfolding resolve_request
  resolve_request-AnswersFit msg t m h = named msg.request_id refl
    where
      set_answer :
          (rid : String)
          → msg.request_id ≡ some rid
          → AnswersFit (record t { futures = insert rid (answered msg) t.futures })
      set_answer rid own other found e = elim (Bool-cases (rid == other)) [
        | inl same ↦
            let here : some (answered msg) ≡ some (answered found) =
              ground (arith, lookup-insert rid other (answered msg) t.futures, same, e) in
            let as_sent : msg ≡ found = cc here in
            subst (λ g. (g.request_id ≡ some other) × Elem (responding g) events) as_sent
              (own ∙ ap some ((string_eq.beq_iff rid other).0 same), m)
        | inr apart ↦
            h other found
              (ground (arith, lookup-insert rid other (answered msg) t.futures, apart, e))
      ]

      with_id : (rid : String) → msg.request_id ≡ some rid → AnswersFit (resolve_with msg rid t).1
      with_id rid own =
          elim (Bool-cases (can_resolve (lookup rid t.pending) (lookup rid t.futures))) [
            | inl can ↦ simp can (set_answer rid own)
            | inr cannot ↦ simp cannot h
          ]

      named : (o : Option String) → msg.request_id ≡ o → AnswersFit (resolve_named msg o t).1
      named none own = h
      named (some rid) own = elim (Bool-cases (rid == "")) [
        | inl blank ↦ simp blank h
        | inr given ↦ simp given (with_id rid own)
      ]

  unregister-AnswersFit :
      (agent_id : String) (ws : Option ℕ) (t : LocalAgentTransport)
      → AnswersFit t
      → AnswersFit (unregister agent_id ws t)
  unfolding unregister
  unregister-AnswersFit agent_id none t h =
      flush_all-AnswersFit agent_id (rids_of agent_id t.pending)
        (record t { connections = erase agent_id t.connections }) h
  unregister-AnswersFit agent_id (some ws) t h =
      elim (Bool-cases (is_current (lookup agent_id t.connections) ws)) [
        | inl current ↦ simp current (
            flush_all-AnswersFit agent_id (rids_of agent_id t.pending)
              (record t { connections = erase agent_id t.connections }) h)
        | inr stale ↦ simp stale h
      ]

  start_shutdown-AnswersFit :
      (t : LocalAgentTransport) → AnswersFit t → AnswersFit (start_shutdown t)
  unfolding start_shutdown
  start_shutdown-AnswersFit t h = elim (Bool-cases t.shutting_down) [
    | inl down ↦ simp down h
    | inr up ↦ simp up h
  ]

  Outside-AnswersFit :
      (event : Event) (f : LocalAgentTransport → LocalAgentTransport) (t : LocalAgentTransport)
      → Elem event events
      → Outside event f
      → AnswersFit t
      → AnswersFit (f t)
  unfolding wake_connect_waiters
  Outside-AnswersFit _ _ t m (is_publish agent_id ws) h = h
  Outside-AnswersFit _ _ t m (is_old_closed agent_id false) h = h
  Outside-AnswersFit _ _ t m (is_old_closed agent_id true) h =
      flush_all-AnswersFit agent_id (rids_of agent_id t.pending) t h
  Outside-AnswersFit _ _ t m (is_unregister agent_id ws) h = unregister-AnswersFit agent_id ws t h
  Outside-AnswersFit _ _ t m (is_wake agent_id) h = h
  Outside-AnswersFit _ _ t m (is_resolve msg) h = resolve_request-AnswersFit msg t m h
  Outside-AnswersFit _ _ t m is_shutdown h = start_shutdown-AnswersFit t h

  -- Calls that draw an id, and those that keep theirs.
  drawn-insert :
      (n : ℕ) (moved : Call) (calls : List (ℕ × Call))
      → ((m : ℕ) (call : Call) (rid : String)
          → lookup m calls ≡ some call
          → rid_of call.phase ≡ some rid
          → Elem (moving m (semaphore_got rid)) events)
      → ((rid : String)
          → rid_of moved.phase ≡ some rid
          → Elem (moving n (semaphore_got rid)) events)
      → (m : ℕ) (call : Call) (rid : String) → lookup m (insert n moved calls) ≡ some call
      → rid_of call.phase ≡ some rid
      → Elem (moving m (semaphore_got rid)) events
  drawn-insert n moved calls h own m call rid at e = elim (Bool-cases (n == m)) [
    | inl same ↦
        let here : some moved ≡ some call =
          ground (arith, lookup-insert n m moved calls, same, at) in
        subst (λ k. Elem (moving k (semaphore_got rid)) events) ((nat_eq.beq_iff n m).0 same)
          (own rid (ap (λ (x : Call). rid_of x.phase) (some_injective here) ∙ e))
    | inr apart ↦ h m call rid (ground (arith, lookup-insert n m moved calls, apart, at)) e
  ]

  drawn-erase :
      (n : ℕ) (calls : List (ℕ × Call))
      → ((m : ℕ) (call : Call) (rid : String)
          → lookup m calls ≡ some call
          → rid_of call.phase ≡ some rid
          → Elem (moving m (semaphore_got rid)) events)
      → (m : ℕ) (call : Call) (rid : String) → lookup m (erase n calls) ≡ some call
      → rid_of call.phase ≡ some rid
      → Elem (moving m (semaphore_got rid)) events
  drawn-erase n calls h m call rid at e = elim (Bool-cases (n == m)) [
    | inl same ↦
        let gone : lookup m (erase n calls) ≡ none = ground (arith, lookup-erase n m calls, same) in
        cc (gone, at)
    | inr apart ↦ h m call rid (ground (arith, lookup-erase n m calls, apart, at)) e
  ]

  replies-raised :
      (n : ℕ) (e : AgentError) (w : World)
      → IsRouted w
      → (m : ℕ) (inner : List (String × String))
      → Elem (m, returned inner) ((n, raised e) ∷ w.outcomes)
      → Replied m inner
  replies-raised n e w h m inner (inl p) = cc p
  replies-raised n e w h m inner (inr there) = h.replies m inner there

  read_reply-returned :
      (c : Config) (msg : Message) (o : Option (List (String × String)))
      (inner : List (String × String))
      → read_reply c msg o ≡ returned inner
      → o ≡ some inner
  read_reply-returned c msg none inner e = cc
  read_reply-returned c msg (some own) inner e =
      elim (Bool-cases (has_error c (lookup "error" own))) [
        | inl bad ↦ absurd (cc (rw bad at e))
        | inr good ↦ cc (rw good at e)
      ]

  outcome_of-returned :
      (c : Config) (call : Call) (rid : String) (o : Option Future) (inner : List (String × String))
      → outcome_of c call rid o ≡ returned inner
      → (msg : Message) × (o ≡ some (answered msg)) × (msg.payload ≡ some inner)
  outcome_of-returned c call rid none inner e = cc
  outcome_of-returned c call rid (some waiting) inner e = cc
  outcome_of-returned c call rid (some (answered msg)) inner e =
      (msg, refl, read_reply-returned c msg msg.payload inner e)
  outcome_of-returned c call rid (some (failed other)) inner e = cc

  forget-futures : (phase : Phase) (t : LocalAgentTransport) → (forget phase t).futures ≡ t.futures
  forget-futures connecting t = refl
  forget-futures queued t = refl
  forget-futures (locking rid) t = refl
  forget-futures (asked rid) t = refl

  -- The futures of a transport are all that the answers depend on.
  AnswersFit-same :
      (t u : LocalAgentTransport) → t.futures ≡ u.futures → AnswersFit t → AnswersFit u
  AnswersFit-same t u same h rid msg e = h rid msg (ap (lookup rid) same ∙ e)

  finish-IsRouted :
      (n : ℕ) (call : Call) (outcome : Outcome) (w : World)
      → ((inner : List (String × String)) → outcome ≡ returned inner → Replied n inner)
      → IsRouted w
      → IsRouted (finish n call outcome w)
  unfolding decrement_pending
  finish-IsRouted n call outcome w reply h = record {
    answers =
        AnswersFit-same w.transport (forget call.phase w.transport)
          (sym (forget-futures call.phase w.transport)) h.answers;
    drawn = drawn-erase n w.calls h.drawn;
    replies = replies;
  }
    where
      replies :
          (m : ℕ) (inner : List (String × String))
          → Elem (m, returned inner) ((n, outcome) ∷ w.outcomes)
          → Replied m inner
      replies m inner (inl p) =
          subst (λ k. Replied k inner) (sym (ap (λ (q : ℕ × Outcome). q.0) p))
            (reply inner (sym (ap (λ (q : ℕ × Outcome). q.1) p)))
      replies m inner (inr there) = h.replies m inner there

  kept-IsRouted :
      (n : ℕ) (moved : Call) (w w' : World)
      → w'.calls ≡ insert n moved w.calls
      → w'.outcomes ≡ w.outcomes
      → AnswersFit w'.transport
      → ((rid : String)
          → rid_of moved.phase ≡ some rid
          → Elem (moving n (semaphore_got rid)) events)
      → IsRouted w
      → IsRouted w'
  kept-IsRouted n moved w w' calls outcomes answers own h = record {
    answers = answers;
    drawn = λ m call rid at e.
        drawn-insert n moved w.calls h.drawn own m call rid (ap (lookup m) (sym calls) ∙ at) e;
    replies = λ m inner there. h.replies m inner (subst (Elem (m, returned inner)) outcomes there);
  }

  ended-IsRouted :
      (n : ℕ) (e : AgentError) (w : World) → IsRouted w → IsRouted (end_call n (raised e) w)
  ended-IsRouted n e w h = record {
    answers = h.answers;
    drawn = drawn-erase n w.calls h.drawn;
    replies = replies-raised n e w h;
  }

  ask-AnswersFit :
      (rid agent_id : String) (t : LocalAgentTransport)
      → AnswersFit t
      → AnswersFit (record t {
        pending = insert rid agent_id t.pending;
        futures = insert rid waiting t.futures;
      })
  ask-AnswersFit rid agent_id t h other msg e = elim (Bool-cases (rid == other)) [
    | inl same ↦
        let here : some waiting ≡ some (answered msg) =
          ground (arith, lookup-insert rid other waiting t.futures, same, e) in
        cc here
    | inr apart ↦ h other msg (ground (arith, lookup-insert rid other waiting t.futures, apart, e))
  ]

  module _ (c : Config) where
    reply-Replied :
        (n : ℕ) (call : Call) (rid : String) (w : World)
        → IsRouted w
        → lookup n w.calls ≡ some call
        → call.phase ≡ asked rid
        → (inner : List (String × String))
        → outcome_of c call rid (lookup rid w.transport.futures) ≡ returned inner
        → Replied n inner
    reply-Replied n call rid w h at phase inner e =
        let (msg, found, payload) =
          outcome_of-returned c call rid (lookup rid w.transport.futures) inner e in
        let (own, sent) = h.answers rid msg found in
        (rid, msg, h.drawn n call rid at (ap rid_of phase), sent, own, payload)

    Change-IsRouted :
        (event : Event) (w w' : World)
        → Elem event events
        → Change c event w w'
        → IsRouted w
        → IsRouted w'
    unfolding increment_pending
    Change-IsRouted _ _ _ m (refused n agent_id timeout wait e w absent) h = ended-IsRouted n e w h
    Change-IsRouted _ _ w' m (noted n agent_id timeout w absent) h =
        kept-IsRouted n (new_call agent_id timeout) w w' refl refl h.answers (λ rid e. cc) h
    Change-IsRouted _ _ w' m (admitted n agent_id timeout wait w absent free) h =
        kept-IsRouted n (record (new_call agent_id timeout) { phase = queued }) w w' refl refl
          h.answers (λ rid e. cc) h
    Change-IsRouted _ _ w' m (arrived n call w at phase) h =
        kept-IsRouted n (record call { phase = queued }) w w' refl refl h.answers (λ rid e. cc) h
    Change-IsRouted _ _ _ m (missed event n call e w at phase) h = ended-IsRouted n e w h
    Change-IsRouted _ _ w' m (asking n call rid w at phase) h =
        kept-IsRouted n (record call { phase = locking rid }) w w' refl refl
          (ask-AnswersFit rid call.agent_id w.transport h.answers)
          (λ r e. subst (λ x. Elem (moving n (semaphore_got x)) events) (some_injective e) m) h
    Change-IsRouted _ _ w' m (writing n call rid ws w at phase there) h =
        kept-IsRouted n (record call { phase = asked rid }) w w' refl refl h.answers
          (λ r e. h.drawn n call r at (ap rid_of phase ∙ e)) h
    Change-IsRouted _ _ _ m (given_up event n call e w at counts) h =
        finish-IsRouted n call (raised e) w (λ inner p. cc) h
    Change-IsRouted _ _ _ m (answered_call n call rid w at phase) h =
        finish-IsRouted n call (outcome_of c call rid (lookup rid w.transport.futures)) w
          (reply-Replied n call rid w h at phase) h
    Change-IsRouted _ _ _ m (outside event f w out) h = record {
      answers = Outside-AnswersFit event f w.transport m out h.answers;
      drawn = h.drawn;
      replies = h.replies;
    }

module _ (c : Config) where
  -- Whatever a call of `send_request` returned, in any course, is the payload of a response that came
  -- in with the request id that this call drew.
  pub run-Replied :
      (events : List Event) (w : World) (n : ℕ) (inner : List (String × String))
      → run c events start ≡ some w
      → Elem (n, returned inner) w.outcomes
      → Replied events n inner
  run-Replied events w n inner h there =
      let routed =
        run-invariant c (λ e. Elem e events) (IsRouted events) (Change-IsRouted events c) events
          start w (All-self events) h
          (record {
            answers = λ rid msg e. cc;
            drawn = λ m call rid at e. cc;
            replies = λ m r e. absurd e;
          }) in
      routed.replies n inner there
