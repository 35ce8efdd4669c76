-- ===== src/Session/Refresh.antt =====
-- The refresh loop of a worker that holds the lock.
use claude_todo.Prelude.{
  ℕ, ◌+◌, ◌≤◌, ◌<◌, String, ◌≡◌, refl, true, some, List, [], ◌∷◌, nat_eq, string_eq, ltb, arith,
}
use claude_todo.Session.{
  Locks, sse_holder_ttl, sse_holder_key, is_holder, get_holder, refresh_sse_holder, Round,
  run_holder_refresh_loop,
}
use claude_todo.Session.Exclusive.{HeldFor}

module _ (r : Locks) (sid : String) where
  -- What leaves the lock with its holder for as long as it is the holder's.
  abbrev pub Harmless : String → (r.Store → r.Store) → Type 0
  Harmless h f =
      (s : r.Store) (from until : ℕ)
      → HeldFor r sid s h from until
      → HeldFor r sid (f s) h from until

  -- Rounds of which each comes before the lock lapses, with harmless commands in between.
  pub InSteps : String → ℕ → List (Round r sid) → Type 0
  InSteps h from [] = Unit
  InSteps h from (n ∷ rounds) =
      (from ≤ n.read_at)
      × (n.read_at ≤ n.write_at)
      × (n.write_at < from + sse_holder_ttl)
      × Harmless h n.asleep
      × Harmless h n.between
      × InSteps h n.write_at rounds

  abbrev pub last : ℕ → List (Round r sid) → ℕ
  last from [] = from
  last from (n ∷ rounds) = last n.write_at rounds

  refreshed :
      (now : ℕ) (h : String) (s : r.Store)
      → r.get now s (sse_holder_key sid) ≡ some h
      → ((refresh_sse_holder r sid (some h) now h s).0 ≡ true)
        × HeldFor r sid (refresh_sse_holder r sid (some h) now h s).1 h now (now + sse_holder_ttl)
  unfolding refresh_sse_holder
  refreshed now h s held =
      let same : is_holder (some h) h ≡ true = ground (arith, string_eq.beq_iff h h) in
      (
        rw same refl,
        λ t begun ends.
            let before : ltb t (now + sse_holder_ttl) ≡ true = ground (arith, ends) in
            rw (same, r.expire_get now t s (sse_holder_key sid) h sse_holder_ttl held begun, before)
              refl,
      )

  -- A worker that holds the lock and refreshes it at least once in every 60 seconds never loses it,
  -- whatever harmless commands of others come in between, and holds it for 60 seconds after the last
  -- time.
  pub run_holder_refresh_loop-HeldFor :
      (rounds : List (Round r sid)) (from : ℕ) (h : String) (s : r.Store)
      → HeldFor r sid s h from (from + sse_holder_ttl)
      → InSteps h from rounds
      → ((run_holder_refresh_loop r sid rounds h s).0 ≡ true)
        × HeldFor r sid
            (run_holder_refresh_loop r sid rounds h s).1
            h
            (last from rounds)
            (last from rounds + sse_holder_ttl)
  unfolding run_holder_refresh_loop InSteps
  run_holder_refresh_loop-HeldFor [] from h s held steps = (refl, held)
  run_holder_refresh_loop-HeldFor (n ∷ rounds) from h s held
        (begun, after, ends, quiet, calm, steps) =
      let asleep = quiet s from (from + sse_holder_ttl) held in
      let between = calm (n.asleep s) from (from + sse_holder_ttl) asleep in
      let seen : get_holder r sid n.read_at (n.asleep s) ≡ some h =
        asleep n.read_at begun (omega arith) in
      let (owned, again) =
        refreshed n.write_at h (n.between (n.asleep s)) (between n.write_at (omega arith) ends) in
      rw seen (simp owned (run_holder_refresh_loop-HeldFor rounds n.write_at h _ again steps))
