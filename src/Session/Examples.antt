-- ===== src/Session/Examples.antt =====
-- Redis as a function of the keys, two workers, and the theorem at them.
use claude_todo.Prelude.{
  ℕ, ◌+◌, String, ◌≡◌, refl, ◌≢◌, Bool, true, false, Option, none, some, List, [], ◌∷◌, ◌==◌,
  string_eq, if◌then◌else◌, ltb, arith, All, beq_refl,
}
use claude_todo.Session.{Locks, acquire_sse_holder, refresh_sse_holder, release_sse_holder_if_owner}
use claude_todo.Session.Exclusive.{
  Op, acquire, look, extend, drop, State, ByOthers, HeldFor, step, run, acquire_excludes,
}

abbrev Entries : Type 0
Entries = String → Option (String × ℕ)

abbrev still : ℕ → Option (String × ℕ) → Option String
still t none = none
still t (some (v, until)) = if ltb t until then some v else none

abbrev put : String → Option (String × ℕ) → Entries → Entries
put key e s other = if key == other then e else s other

abbrev put_free : ℕ → String → String → ℕ → Option String → Entries → Bool × Entries
put_free now key v ex none s = (true, put key (some (v, now + ex)) s)
put_free now key v ex (some w) s = (false, s)

abbrev renew : ℕ → ℕ → Option String → String → Entries → Entries
renew now ex none key s = s
renew now ex (some v) key s = put key (some (v, now + ex)) s

abbrev locks : Locks
locks = record {
  Store = Entries;
  get = λ t s key. still t (s key);
  set_nx = λ now key v ex s. put_free now key v ex (still now (s key)) s;
  expire = λ now key ex s. renew now ex (still now (s key)) key s;
  delete = λ key s. put key none s;
  set_nx_free = λ now t s key v ex free h. rw (free, beq_refl key) refl;
  set_nx_held = λ now s key v w ex held. rw held refl;
  expire_get = λ now t s key v ex held h. rw (held, beq_refl key) refl;
  delete_get = λ t s key. rw (beq_refl key) refl;
}

abbrev nobody : Entries
nobody key = none

abbrev nothing_open : State locks "sid"
nothing_open = record { store = nobody; seen = λ n. none }

-- The first worker has the lock; another looks at it before it gives up.
abbrev others : List (ℕ × Op)
others =
    (110, acquire "w2")
    ∷ (120, look 1 "w2")
    ∷ (125, acquire "w3")
    ∷ (130, extend 1 "w2")
    ∷ (140, look 2 "w2")
    ∷ (159, drop 2 "w2")
    ∷ []

other_than : (o : String) → (o == "w1") ≡ false → o ≢ "w1"
other_than o differ same = cc ((string_eq.beq_iff o "w1").1 same, differ)

others-ByOthers : ByOthers locks "sid" "w1" 100 160 others
others-ByOthers =
    let second = other_than "w2" refl in
    (
      (omega arith, omega arith, second),
      (
        (omega arith, omega arith, second),
        (
          (omega arith, omega arith, other_than "w3" refl),
          (
            (omega arith, omega arith, second),
            ((omega arith, omega arith, second), ((omega arith, omega arith, second), tt)),
          ),
        ),
      ),
    )

taken : (step locks "sid" 100 (acquire "w1") nothing_open).0 ≡ some true
unfolding step acquire_sse_holder
taken = refl

acquire_excludes_example :
    All
      (λ a. a ≢ some true)
      (run locks "sid" others (step locks "sid" 100 (acquire "w1") nothing_open).1).0
    × HeldFor locks "sid"
        (run locks "sid" others (step locks "sid" 100 (acquire "w1") nothing_open).1).1.store
        "w1"
        100
        160
acquire_excludes_example =
    acquire_excludes locks "sid" 100 "w1" nothing_open others taken (λ n other differ. refl)
      others-ByOthers

-- Once the worker is gone, the lock can be had after its 60 seconds.
free_again :
    (step locks "sid" 160 (acquire "w2") (step locks "sid" 100 (acquire "w1") nothing_open).1).0
    ≡ some true
unfolding step acquire_sse_holder
free_again = refl

-- A release that has looked before its lock lapsed deletes the lock of the next worker, and a third
-- worker gets it while the second holds it.
abbrev left_over : List (ℕ × Op)
left_over =
    (100, acquire "w1")
    ∷ (159, look 1 "w1")
    ∷ (160, acquire "w2")
    ∷ (161, drop 1 "w1")
    ∷ (162, acquire "w3")
    ∷ []

two_holders :
    (run locks "sid" left_over nothing_open).0
    ≡ some true ∷ none ∷ some true ∷ none ∷ some true ∷ []
unfolding run step acquire_sse_holder release_sse_holder_if_owner
two_holders = refl

-- A refresh that has looked before its lock lapsed is told that it still owns the lock.
two_owners :
    (run locks "sid"
      ((100, acquire "w1") ∷ (159, look 1 "w1") ∷ (160, acquire "w2") ∷ (161, extend 1 "w1") ∷ [])
      nothing_open).0
    ≡ some true ∷ none ∷ some true ∷ some true ∷ []
unfolding run step acquire_sse_holder refresh_sse_holder
two_owners = refl
