-- ===== src/ErrorTracker/RateLimit/Minute.antt =====
-- The requests of one minute.
use claude_todo.Prelude.{
  ℕ, suc, ◌-◌, ◌/◌, ◌≤◌, String, ◌≡◌, refl, Bool, true, false, some, List, [], ◌∷◌, if◌then◌else◌,
  ltb, length, All, arith, inl, inr, Option-cases, nat_eq,
}
use claude_todo.ErrorTracker.RateLimit.{
  ErrorTrackingConfig, effective_limit, Redis, key_of, decide, check, ℤ, pos, negsuc, max_one,
  min_cap,
}

module _ (r : Redis) (str : ℕ → String) (project : ErrorTrackingConfig) where
  -- Requests at the times of a list, one after the other, and how many of them are let in.
  unfoldable pub let_in : List (ℕ × ℕ) → r.Store → ℕ × r.Store
  unfolding check
  let_in [] s = (0, s)
  let_in ((now, later) ∷ times) s =
      let (decision, s') = check r str project now later s in
      let (more, s'') = let_in times s' in (if decision.allowed then suc more else more, s'')

  abbrev pub InMinute : ℕ → List (ℕ × ℕ) → Type 0
  InMinute minute times = All (λ t. t.0 / 60 ≡ minute) times

  abbrev pub left : ℕ → r.Store → ℕ
  left minute s = effective_limit project - r.count s (key_of r str project minute)

  -- One request takes one from what is left, if it is let in.
  step :
      (later minute more : ℕ) (s : r.Store)
      → more ≤ left minute (r.incr s (key_of r str project minute)).1
      → (if (decide r str project later (r.incr s (key_of r str project minute)).0).allowed
          then suc more
          else more)
        ≤ left minute s
  step later minute more s h =
      let key = key_of r str project minute in
      elim (Option-cases (r.incr s key).0) [
        | inl fails ↦ rw fails (omega (arith, h, r.incr_grows s key))
        | inr (n, works) ↦
            let (next, now_there) = r.incr_returns s key n works in
            rw works (ground (arith, h, next, now_there))
      ]

  -- Whatever the requests of one minute, and whichever calls of Redis fail, no more than the limit
  -- of the project less the count of that minute are let in.
  pub let_in-le_left :
      (minute : ℕ) (times : List (ℕ × ℕ)) (s : r.Store)
      → InMinute minute times
      → (let_in times s).0 ≤ left minute s
  unfolding let_in
  let_in-le_left minute [] s h = omega arith
  let_in-le_left minute ((now, later) ∷ times) s h =
      rw h.0 (step later minute _ s (let_in-le_left minute times _ h.1))

  -- `min`, which the limiter does not use.
  abbrev pub min : ℕ → ℕ → ℕ
  min a b = if ltb a b then a else b

  step_works :
      (later minute n t : ℕ) (s : r.Store)
      → (r.incr s (key_of r str project minute)).0 ≡ some n
      → (if (decide r str project later (r.incr s (key_of r str project minute)).0).allowed
          then suc (min t (left minute (r.incr s (key_of r str project minute)).1))
          else min t (left minute (r.incr s (key_of r str project minute)).1))
        ≡ min (suc t) (left minute s)
  step_works later minute n t s works =
      let (next, now_there) = r.incr_returns s (key_of r str project minute) n works in
      rw works (ground (arith, next, now_there))

  -- Where no call of Redis fails, the requests of one minute are let in until the limit less the
  -- count of that minute is used up, and not after.
  pub let_in-min :
      (minute : ℕ) (times : List (ℕ × ℕ)) (s : r.Store)
      → ((s' : r.Store) (key : String) → (n : ℕ) × ((r.incr s' key).0 ≡ some n))
      → InMinute minute times
      → (let_in times s).0 ≡ min (length times) (left minute s)
  unfolding let_in
  let_in-min minute [] s works h = ground arith
  let_in-min minute ((now, later) ∷ times) s works h =
      let (n, ok) = works s (key_of r str project minute) in
      rw (h.0, let_in-min minute times (r.incr s (key_of r str project minute)).1 works h.1)
        (step_works later minute n (length times) s ok)

-- The limit of a project is at least one; where every origin is allowed it is at most 300; and it is the
-- configured number where that is positive and, where every origin is allowed, at most 300.
pub effective_limit-bounds :
    (project : ErrorTrackingConfig)
    → (1 ≤ effective_limit project)
      × (project.allowed_origin_wildcard ≡ true → effective_limit project ≤ 300)
      × ((n : ℕ)
          → project.rate_limit_per_min ≡ pos (suc n)
          → (project.allowed_origin_wildcard ≡ true → suc n ≤ 300)
          → effective_limit project ≡ suc n)
unfolding effective_limit
effective_limit-bounds project = (
  at_least project.allowed_origin_wildcard project.rate_limit_per_min,
  λ open_to_all. rw open_to_all (capped project.rate_limit_per_min),
  λ n at fits. rw at (kept project.allowed_origin_wildcard n fits),
)
  where
    at_least : (w : Bool) (l : ℤ) → 1 ≤ max_one (if w then min_cap l else l)
    at_least true (pos n) = ground arith
    at_least true (negsuc n) = omega arith
    at_least false (pos n) = ground arith
    at_least false (negsuc n) = omega arith

    capped : (l : ℤ) → max_one (min_cap l) ≤ 300
    capped (pos n) = ground arith
    capped (negsuc n) = omega arith

    kept :
        (w : Bool) (n : ℕ)
        → (w ≡ true → suc n ≤ 300)
        → max_one (if w then min_cap (pos (suc n)) else pos (suc n)) ≡ suc n
    kept true n fits = ground (arith, fits refl)
    kept false n fits = ground arith
