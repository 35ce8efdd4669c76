-- ===== src/Agents/Owners/Examples.antt =====
-- Redis as a function of the keys, and an agent that two workers and its pings are busy with.
use claude_todo.Prelude.{
  ℕ, ◌+◌, ◌≤◌, ◌<◌, String, ◌≡◌, refl, ◌≢◌, true, false, Option, none, some, List, [], ◌∷◌, ◌==◌,
  string_eq, if◌then◌else◌, ltb, arith, beq_refl,
}
use claude_todo.Agents.Owners.{Redis, on_local_register, get_owner}
use claude_todo.Agents.Owners.Kept.{
  Op, register, unregister, ping, stop, Cluster, bus, apply_op, run_ops, due, last_time, InTime,
  get_owner-run,
}

abbrev Entries : Type 0
Entries = String → Option (String × ℕ)

abbrev still : ℕ → Option (String × ℕ) → Option String
still t none = none
still t (some (v, until)) = if ltb t until then some v else none

abbrev put : String → Option (String × ℕ) → Entries → Entries
put key e s other = if key == other then e else s other

abbrev renew : ℕ → ℕ → Option String → String → Entries → Entries
renew now ex none key s = s
renew now ex (some v) key s = put key (some (v, now + ex)) s

key-apart : (key other : String) → key ≢ other → (key == other) ≡ false
key-apart key other differ = ground (arith, string_eq.beq_iff key other, differ)

renew_other :
    (now ex t : ℕ) (v : Option String) (key other : String) (s : Entries)
    → key ≢ other
    → still t (renew now ex v key s other) ≡ still t (s other)
renew_other now ex t none key other s differ = refl
renew_other now ex t (some v) key other s differ = rw (key-apart key other differ) refl

abbrev redis : Redis
redis = record {
  Store = Entries;
  get = λ t s key. still t (s key);
  set = λ now key v ex s. put key (some (v, now + ex)) s;
  expire = λ now key ex s. renew now ex (still now (s key)) key s;
  delete = λ key s. put key none s;
  set_get = λ now t s key v ex h. rw (beq_refl key) refl;
  set_other = λ now t s key other v ex differ. rw (key-apart key other differ) refl;
  expire_get = λ now t s key v ex held h. rw (held, beq_refl key) refl;
  expire_other =
      λ now t s key other ex differ. renew_other now ex t (still now (s key)) key other s differ;
  delete_other = λ t s key other differ. rw (key-apart key other differ) refl;
}

abbrev empty : Cluster redis
empty = record { store = λ key. none; owned = λ w. [] }

apart : (x y : String) → (x == y) ≡ false → x ≢ y
apart x y differ same = ground (arith, string_eq.beq_iff x y, same, differ)

-- Another worker drops the agent late, the agent pings after 80 seconds, and another agent comes.
abbrev ops : List (ℕ × Op)
ops =
    (110, unregister "w2" "laptop" true)
    ∷ (180, ping "w1" "laptop" (some "w1"))
    ∷ (200, register "w2" "server")
    ∷ (210, stop "w2" (λ agent_id. true))
    ∷ []

other_agent : ◌≢◌ {A = String} "server" "laptop"
other_agent = apart "server" "laptop" refl

other_worker : ◌≢◌ {A = String} "w2" "w1"
other_worker = apart "w2" "w1" refl

ops-InTime : InTime redis "w1" "laptop" 100 190 ops
unfolding InTime
ops-InTime = (
  omega arith,
  omega arith,
  (λ mine. absurd (other_worker mine)),
  (
    omega arith,
    omega arith,
    tt,
    (
      omega arith,
      omega arith,
      (λ here. absurd (other_agent here)),
      (omega arith, omega arith, other_worker, tt),
    ),
  ),
)

ops-last_time : last_time redis "w1" "laptop" 100 ops ≤ 260
unfolding last_time
ops-last_time = omega arith

ops-due : 260 < due redis "w1" "laptop" 190 ops
unfolding due
ops-due = omega arith

get_owner-run_example :
    (let end = run_ops redis ops (apply_op redis 100 (register "w1" "laptop") empty) in
      get_owner redis 260 "laptop" (bus redis "w2" end) end.store)
    ≡ some "w1"
get_owner-run_example =
    get_owner-run redis "w1" "laptop" empty 100 ops "w2" 260 ops-InTime ops-last_time ops-due

-- Without a ping the agent is lost after 90 seconds.
lapsed :
    (let end = apply_op redis 100 (register "w1" "laptop") empty in
      get_owner redis 190 "laptop" (bus redis "w2" end) end.store)
    ≡ none
unfolding get_owner apply_op on_local_register
lapsed = refl
