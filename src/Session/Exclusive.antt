-- ===== src/Session/Exclusive.antt =====
-- One worker at a time holds the lock, where no refresh or release is left over from before.
use claude_todo.Prelude.{
  ℕ, ◌+◌, ◌≤◌, ◌<◌, String, ◌≡◌, refl, sym, ap, subst, ◌∙◌, ◌≢◌, Bool, true, false, Option, none,
  some, List, [], ◌∷◌, ◌==◌, nat_eq, string_eq, if◌then◌else◌, ltb, arith, All, inl, inr,
  Bool-cases, Option-cases,
}
use claude_todo.Session.{
  Locks, sse_holder_ttl, sse_holder_key, is_holder, acquire_sse_holder, get_holder,
  refresh_sse_holder, release_sse_holder_if_owner,
}

-- A command that a worker sends. A refresh or a release is a call with a number of its own: `look` is
-- its GET, and `extend` and `drop` are what a refresh and a release do with the answer.
pub data Op : Type 0 where
  acquire : String → Op
  look extend drop : ℕ → String → Op

abbrev pub owner : Op → String
owner (acquire h) = h
owner (look n h) = h
owner (extend n h) = h
owner (drop n h) = h

module _ (r : Locks) (sid : String) where
  -- Redis, and what the GET of each call that is not over has brought.
  pub record State : Type 0 where
    pub store : r.Store
    pub seen : ℕ → Option String

  -- From one time until another, the holder is the one that is stored.
  abbrev pub HeldFor : r.Store → String → ℕ → ℕ → Type 0
  HeldFor s h from until = (t : ℕ) → from ≤ t → t < until → r.get t s (sse_holder_key sid) ≡ some h

  abbrev pub see : ℕ → Option String → (ℕ → Option String) → ℕ → Option String
  see n answer seen m = if n == m then answer else seen m

  -- The answer of a command to its worker, if it is the last of an operation that has one, and what it
  -- leaves.
  unfoldable pub step : ℕ → Op → State → Option Bool × State
  unfolding acquire_sse_holder refresh_sse_holder release_sse_holder_if_owner
  step now (acquire h) x =
      let (got, s) = acquire_sse_holder r sid now h x.store in (some got, record x { store = s })
  step now (look n h) x = (none, record x { seen = see n (get_holder r sid now x.store) x.seen })
  step now (extend n h) x =
      let (still_owner, s) = refresh_sse_holder r sid (x.seen n) now h x.store in
      (some still_owner, record { store = s; seen = see n none x.seen })
  step now (drop n h) x = (
    none,
    record {
      store = release_sse_holder_if_owner r sid (x.seen n) h x.store;
      seen = see n none x.seen;
    },
  )

  unfoldable pub run : List (ℕ × Op) → State → List (Option Bool) × State
  unfolding step
  run [] x = ([], x)
  run ((now, op) ∷ ops) x =
      let (answer, x') = step now op x in let (answers, x'') = run ops x' in (answer ∷ answers, x'')

  -- No other worker has an operation open whose GET has found that worker to be the holder.
  abbrev pub NoneOpen : String → (ℕ → Option String) → Type 0
  NoneOpen h seen = (n : ℕ) (other : String) → other ≢ h → is_holder (seen n) other ≡ false

  not_holder : (h other : String) → other ≢ h → is_holder (some h) other ≡ false
  not_holder h other differ = ground (arith, string_eq.beq_iff h other, differ)

  see-NoneOpen :
      (h : String) (n : ℕ) (answer : Option String) (seen : ℕ → Option String)
      → ((other : String) → other ≢ h → is_holder answer other ≡ false)
      → NoneOpen h seen
      → NoneOpen h (see n answer seen)
  see-NoneOpen h n answer seen fits quiet m other differ = elim (Bool-cases (n == m)) [
    | inl same ↦ rw same (fits other differ)
    | inr apart ↦ rw apart (quiet m other differ)
  ]

  -- A command of another worker is not answered with yes, and leaves the store and this as it is.
  step_other :
      (now : ℕ) (op : Op) (x : State) (h : String)
      → r.get now x.store (sse_holder_key sid) ≡ some h
      → NoneOpen h x.seen
      → owner op ≢ h
      → ((step now op x).0 ≢ some true)
        × ((step now op x).1.store ≡ x.store)
        × NoneOpen h (step now op x).1.seen
  unfolding step acquire_sse_holder refresh_sse_holder release_sse_holder_if_owner
  step_other now (acquire o) x h held quiet differ =
      let refusal = r.set_nx_held now x.store (sse_holder_key sid) o h sse_holder_ttl held in
      (
        λ yes. cc (ap (λ (p : Bool × r.Store). p.0) refusal, yes),
        ap (λ (p : Bool × r.Store). p.1) refusal,
        quiet,
      )
  step_other now (look n o) x h held quiet differ = (
    λ yes. cc yes,
    refl,
    see-NoneOpen h n _ x.seen (λ other apart. rw held (not_holder h other apart)) quiet,
  )
  step_other now (extend n o) x h held quiet differ = (
    λ yes. cc (rw (quiet n o differ) at yes),
    rw (quiet n o differ) refl,
    see-NoneOpen h n none x.seen (λ other apart. refl) quiet,
  )
  step_other now (drop n o) x h held quiet differ = (
    λ yes. cc yes,
    rw (quiet n o differ) refl,
    see-NoneOpen h n none x.seen (λ other apart. refl) quiet,
  )

  abbrev pub ByOthers : String → ℕ → ℕ → List (ℕ × Op) → Type 0
  ByOthers h from until ops = All (λ o. (from ≤ o.0) × (o.0 < until) × (owner o.1 ≢ h)) ops

  -- While a worker holds the lock, the others are not answered with yes and leave the store as it is.
  run_others :
      (ops : List (ℕ × Op)) (x : State) (h : String) (from until : ℕ)
      → HeldFor x.store h from until
      → NoneOpen h x.seen
      → ByOthers h from until ops
      → All (λ a. a ≢ some true) (run ops x).0 × ((run ops x).1.store ≡ x.store)
  unfolding run
  run_others [] x h from until held quiet others = (tt, refl)
  run_others ((now, op) ∷ ops) x h from until held quiet others =
      let (begun, ends, differ) = others.0 in
      let (answered, same, still) = step_other now op x h (held now begun ends) quiet differ in
      let (answers, later) =
        run_others ops (step now op x).1 h from until
          (subst (λ s. HeldFor s h from until) (sym same) held) still others.1 in
      ((answered, answers), later ∙ same)

  acquired :
      (now : ℕ) (h : String) (s : r.Store)
      → (acquire_sse_holder r sid now h s).0 ≡ true
      → HeldFor (acquire_sse_holder r sid now h s).1 h now (now + sse_holder_ttl)
  unfolding acquire_sse_holder
  acquired now h s got t begun ends = elim (Option-cases (r.get now s (sse_holder_key sid))) [
    | inl free ↦
        r.set_nx_free now t s (sse_holder_key sid) h sse_holder_ttl free begun
        ∙ (let before : ltb t (now + sse_holder_ttl) ≡ true = ground (arith, ends) in
            rw before refl)
    | inr (w, held) ↦ absurd (
        cc (
          ap (λ (x : Bool × r.Store). x.0)
              (r.set_nx_held now s (sse_holder_key sid) h w sse_holder_ttl held),
          got,
        ))
  ]

  pub acquire_excludes :
      (now : ℕ) (h : String) (x : State) (ops : List (ℕ × Op))
      → (step now (acquire h) x).0 ≡ some true
      → NoneOpen h x.seen
      → ByOthers h now (now + sse_holder_ttl) ops
      → All (λ a. a ≢ some true) (run ops (step now (acquire h) x).1).0
        × HeldFor (run ops (step now (acquire h) x).1).1.store h now (now + sse_holder_ttl)
  unfolding step
  acquire_excludes now h x ops got quiet others =
      let held = acquired now h x.store (cc got) in
      let (answers, same) =
        run_others ops (step now (acquire h) x).1 h now (now + sse_holder_ttl) held quiet others in
      (answers, subst (λ s. HeldFor s h now (now + sse_holder_ttl)) (sym same) held)
