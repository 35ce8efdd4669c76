-- ===== src/Agents/Accounts.antt =====
-- What the pending counts say about the calls that are open.
use claude_todo.Prelude.{
  ℕ, String, ◌≡◌, refl, sym, ap, subst, inl, inr, Bool, true, false, Option, none, some, List, [],
  ◌∷◌, ◌+◌, ◌-◌, ◌≤◌, ◌<◌, ◌==◌, nat_eq, string_eq, if◌then◌else◌, leb, arith, Bool-cases,
  Option-cases,
}
use claude_todo.Prelude.Dict.{
  lookup, insert, erase, lookup-insert, lookup-erase, AllValues, AllValues-insert, AllValues-erase,
  AllValues-lookup,
}
use claude_todo.Prelude.Totals.{
  UniqueKeys, UniqueKeys-insert, UniqueKeys-erase, weight, total, total-insert, total-erase,
}
use claude_todo.Agents.{pending_of, or_zero, lowered, is_empty, total_pending}
use claude_todo.Agents.Calls.{Call, Phase, connecting, queued, locking, asked}

-- The calls that take a place: all but those that still wait for the agent to connect.
abbrev pub is_counted : Phase → Bool
is_counted connecting = false
is_counted queued = true
is_counted (locking rid) = true
is_counted (asked rid) = true

abbrev pub one : Call → ℕ
one call = if is_counted call.phase then 1 else 0

abbrev pub one_of : String → Call → ℕ
one_of agent_id call = if call.agent_id == agent_id then one call else 0

-- The counts are those of the open calls, a dictionary without zeros, and the event of the drain is
-- set exactly when it is empty.
pub record Accounts (counts : List (String × ℕ)) (drain : Bool) (calls : List (ℕ × Call))
    : Type 0 where
  pub calls_unique : UniqueKeys calls
  pub counts_unique : UniqueKeys counts
  pub positive : AllValues (λ n. 0 < n) counts
  pub counted : (agent_id : String) → pending_of counts agent_id ≡ total (one_of agent_id) calls
  pub whole : total_pending counts ≡ total one calls
  pub drained : drain ≡ is_empty counts

total_pending-total : (counts : List (String × ℕ)) → total_pending counts ≡ total (λ n. n) counts
unfolding total_pending total
total_pending-total [] = refl
total_pending-total ((agent_id, n) ∷ counts) = ap (λ k. n + k) (total_pending-total counts)

weight-or_zero : (o : Option ℕ) → weight (λ n. n) o ≡ or_zero o
weight-or_zero none = refl
weight-or_zero (some n) = refl

-- An agent whose count is zero has no entry.
pub pending_of-absent :
    (agent_id : String) (counts : List (String × ℕ))
    → AllValues (λ n. 0 < n) counts
    → pending_of counts agent_id ≡ 0
    → lookup agent_id counts ≡ none
pending_of-absent agent_id counts positive zero_count =
    elim (Option-cases (lookup agent_id counts)) [
      | inl absent ↦ absent
      | inr (n, there) ↦
          let above : 0 < n = AllValues-lookup (λ n. 0 < n) agent_id n counts positive there in
          let at : n ≡ 0 = rw there at zero_count in absurd (omega (arith, above, at))
    ]

total_pending-insert :
    (agent_id : String) (n : ℕ) (counts : List (String × ℕ))
    → total_pending (insert agent_id n counts) + pending_of counts agent_id
      ≡ total_pending counts + n
total_pending-insert agent_id n counts = omega (
  arith,
  total-insert (λ (k : ℕ). k) agent_id n counts,
  total_pending-total counts,
  total_pending-total (insert agent_id n counts),
  weight-or_zero (lookup agent_id counts),
)

total_pending-erase :
    (agent_id : String) (counts : List (String × ℕ))
    → UniqueKeys counts
    → total_pending (erase agent_id counts) + pending_of counts agent_id ≡ total_pending counts
total_pending-erase agent_id counts h = omega (
  arith,
  total-erase (λ (k : ℕ). k) agent_id counts h,
  total_pending-total counts,
  total_pending-total (erase agent_id counts),
  weight-or_zero (lookup agent_id counts),
)

pending_of-insert :
    (agent_id other : String) (n : ℕ) (counts : List (String × ℕ))
    → pending_of (insert agent_id n counts) other
      ≡ (if agent_id == other then n else pending_of counts other)
pending_of-insert agent_id other n counts = ground (arith, lookup-insert agent_id other n counts)

pending_of-erase :
    (agent_id other : String) (counts : List (String × ℕ))
    → pending_of (erase agent_id counts) other
      ≡ (if agent_id == other then 0 else pending_of counts other)
pending_of-erase agent_id other counts = ground (arith, lookup-erase agent_id other counts)

insert-is_empty :
    {V : Type 0} (k : String) (v : V) (m : List (String × V)) → is_empty (insert k v m) ≡ false
insert-is_empty k v [] = refl
insert-is_empty k v ((j, w) ∷ m) = ground arith

pending_of-is_empty :
    (agent_id : String) (counts : List (String × ℕ))
    → 0 < pending_of counts agent_id
    → is_empty counts ≡ false
pending_of-is_empty agent_id [] h = absurd (omega arith)
pending_of-is_empty agent_id (p ∷ counts) h = refl

total-found :
    (f : Call → ℕ) (n : ℕ) (call : Call) (calls : List (ℕ × Call))
    → UniqueKeys calls
    → lookup n calls ≡ some call
    → total f (erase n calls) + f call ≡ total f calls
total-found f n call calls h found =
    subst (λ o. total f (erase n calls) + weight f o ≡ total f calls) found
      (total-erase f n calls h)

pub one_of-le : (agent_id : String) (o : Option Call) → weight (one_of agent_id) o ≤ weight one o
one_of-le agent_id none = omega arith
one_of-le agent_id (some call) = ground arith

one_of-same : (call : Call) → one_of call.agent_id call ≡ one call
one_of-same call = ground (arith, string_eq.beq_iff call.agent_id call.agent_id)

-- One more call that counts.
pub Accounts-more :
    {drain : Bool} (n : ℕ) (call : Call) (counts : List (String × ℕ)) (calls : List (ℕ × Call))
    → Accounts counts drain calls
    → weight one (lookup n calls) ≡ 0
    → is_counted call.phase ≡ true
    → Accounts
        (insert call.agent_id (pending_of counts call.agent_id + 1) counts)
        false
        (insert n call calls)
Accounts-more n call counts calls h absent takes = record {
  calls_unique = UniqueKeys-insert n call calls h.calls_unique;
  counts_unique =
      UniqueKeys-insert call.agent_id (pending_of counts call.agent_id + 1) counts h.counts_unique;
  positive =
      AllValues-insert (λ n. 0 < n) call.agent_id (pending_of counts call.agent_id + 1) counts
        (omega arith) h.positive;
  counted = λ a. ground (
    arith,
    pending_of-insert call.agent_id a (pending_of counts call.agent_id + 1) counts,
    h.counted a,
    string_eq.beq_iff call.agent_id a,
    total-insert (one_of a) n call calls,
    one_of-le a (lookup n calls),
    absent,
    takes,
  );
  whole = ground (
    arith,
    total_pending-insert call.agent_id (pending_of counts call.agent_id + 1) counts,
    h.whole,
    total-insert one n call calls,
    absent,
    takes,
  );
  drained = sym (insert-is_empty call.agent_id (pending_of counts call.agent_id + 1) counts);
}

lowered-UniqueKeys :
    (agent_id : String) (counts : List (String × ℕ))
    → UniqueKeys counts
    → UniqueKeys (lowered agent_id counts)
lowered-UniqueKeys agent_id counts h = elim (Bool-cases (leb (pending_of counts agent_id) 1)) [
  | inl last ↦ rw last (UniqueKeys-erase agent_id counts h)
  | inr more ↦ rw more (UniqueKeys-insert agent_id (pending_of counts agent_id - 1) counts h)
]

lowered-AllValues :
    (agent_id : String) (counts : List (String × ℕ))
    → AllValues (λ n. 0 < n) counts
    → AllValues (λ n. 0 < n) (lowered agent_id counts)
lowered-AllValues agent_id counts h = elim (Bool-cases (leb (pending_of counts agent_id) 1)) [
  | inl last ↦ rw last (AllValues-erase (λ n. 0 < n) agent_id counts h)
  | inr more ↦ rw more (
      AllValues-insert (λ n. 0 < n) agent_id (pending_of counts agent_id - 1) counts
        (ground (arith, more)) h)
]

pending_of-lowered :
    (agent_id a : String) (counts : List (String × ℕ))
    → pending_of (lowered agent_id counts) a
      ≡ (if agent_id == a then pending_of counts a - 1 else pending_of counts a)
pending_of-lowered agent_id a counts = elim (Bool-cases (leb (pending_of counts agent_id) 1)) [
  | inl last ↦
      rw last
        (ground (arith, pending_of-erase agent_id a counts, last, string_eq.beq_iff agent_id a))
  | inr more ↦ rw more (
      ground (
        arith,
        pending_of-insert agent_id a (pending_of counts agent_id - 1) counts,
        string_eq.beq_iff agent_id a,
      ))
]

total_pending-lowered :
    (agent_id : String) (counts : List (String × ℕ))
    → UniqueKeys counts
    → 0 < pending_of counts agent_id
    → total_pending (lowered agent_id counts) + 1 ≡ total_pending counts
total_pending-lowered agent_id counts h there =
    elim (Bool-cases (leb (pending_of counts agent_id) 1)) [
      | inl last ↦ rw last (ground (arith, total_pending-erase agent_id counts h, last, there))
      | inr more ↦ rw more (
          ground
            (arith, total_pending-insert agent_id (pending_of counts agent_id - 1) counts, more))
    ]

-- A call that counts comes to its end.
pub Accounts-less :
    {drain : Bool} (n : ℕ) (call : Call) (counts : List (String × ℕ)) (calls : List (ℕ × Call))
    → Accounts counts drain calls
    → lookup n calls ≡ some call
    → is_counted call.phase ≡ true
    → Accounts
        (lowered call.agent_id counts)
        (if is_empty (lowered call.agent_id counts) then true else drain)
        (erase n calls)
Accounts-less n call counts calls h found takes =
    let held : one call ≡ 1 = ground (arith, takes) in
    let there : 0 < pending_of counts call.agent_id = omega (
      arith,
      h.counted call.agent_id,
      one_of-same call,
      held,
      total-found (one_of call.agent_id) n call calls h.calls_unique found,
    ) in
    record {
      calls_unique = UniqueKeys-erase n calls h.calls_unique;
      counts_unique = lowered-UniqueKeys call.agent_id counts h.counts_unique;
      positive = lowered-AllValues call.agent_id counts h.positive;
      counted = λ a. ground (
        arith,
        pending_of-lowered call.agent_id a counts,
        h.counted a,
        total-found (one_of a) n call calls h.calls_unique found,
        held,
      );
      whole = omega (
        arith,
        total_pending-lowered call.agent_id counts h.counts_unique there,
        h.whole,
        held,
        total-found one n call calls h.calls_unique found,
      );
      drained = ground (arith, h.drained, pending_of-is_empty call.agent_id counts there);
    }

-- A call goes on, and counts as before.
pub Accounts-move :
    {drain : Bool} (n : ℕ) (call moved : Call) (counts : List (String × ℕ))
    (calls : List (ℕ × Call))
    → Accounts counts drain calls
    → lookup n calls ≡ some call
    → moved.agent_id ≡ call.agent_id
    → is_counted moved.phase ≡ is_counted call.phase
    → Accounts counts drain (insert n moved calls)
Accounts-move n call moved counts calls h found same keeps = record {
  calls_unique = UniqueKeys-insert n moved calls h.calls_unique;
  counts_unique = h.counts_unique;
  positive = h.positive;
  counted =
      λ a. ground (arith, h.counted a, total-insert (one_of a) n moved calls, found, same, keeps);
  whole = ground (arith, h.whole, total-insert one n moved calls, found, keeps);
  drained = h.drained;
}

-- A call that does not count is noted.
pub Accounts-note :
    {drain : Bool} (n : ℕ) (call : Call) (counts : List (String × ℕ)) (calls : List (ℕ × Call))
    → Accounts counts drain calls
    → weight one (lookup n calls) ≡ 0
    → is_counted call.phase ≡ false
    → Accounts counts drain (insert n call calls)
Accounts-note n call counts calls h absent free = record {
  calls_unique = UniqueKeys-insert n call calls h.calls_unique;
  counts_unique = h.counts_unique;
  positive = h.positive;
  counted = λ a. ground (
    arith,
    h.counted a,
    total-insert (one_of a) n call calls,
    one_of-le a (lookup n calls),
    absent,
    free,
  );
  whole = ground (arith, h.whole, total-insert one n call calls, absent, free);
  drained = h.drained;
}

-- A call that does not count comes to its end.
pub Accounts-drop :
    {drain : Bool} (n : ℕ) (counts : List (String × ℕ)) (calls : List (ℕ × Call))
    → Accounts counts drain calls
    → weight one (lookup n calls) ≡ 0
    → Accounts counts drain (erase n calls)
Accounts-drop n counts calls h absent = record {
  calls_unique = UniqueKeys-erase n calls h.calls_unique;
  counts_unique = h.counts_unique;
  positive = h.positive;
  counted = λ a. omega (
    arith,
    h.counted a,
    total-erase (one_of a) n calls h.calls_unique,
    one_of-le a (lookup n calls),
    absent,
  );
  whole = omega (arith, h.whole, total-erase one n calls h.calls_unique, absent);
  drained = h.drained;
}
