-- ===== src/ErrorTracker/Examples.antt =====
-- A small JSON reader and a Redis of counters, and the theorems at them.
use claude_todo.Prelude.{
  ℕ, suc, ◌≤◌, String, ◌≡◌, refl, true, Option, none, some, List, [], ◌∷◌, ◌==◌, nat_eq, string_eq,
  if◌then◌else◌, All, arith, beq_refl, some_injective, sym,
}
use claude_todo.ErrorTracker.Envelope.{
  Loaded, dict, not_dict, string, int, Orjson, parsed, raised, EnvelopeItem, Envelope, read_items,
  parse_envelope, length_exceeds,
}
use claude_todo.ErrorTracker.Envelope.Framed.{
  IsFramed, payload_bytes, read_items_fuel, parse_envelope-IsFramed,
}
use claude_todo.ErrorTracker.Envelope.Printed.{
  IsLine, IsPrintable, Lines, print_envelope, parse_envelope-print_envelope,
}
use claude_todo.ErrorTracker.RateLimit.{ErrorTrackingConfig, pos, Redis, effective_limit}
use claude_todo.ErrorTracker.RateLimit.Minute.{let_in, let_in-le_left}

-- It reads `{` as an object with a type and a length, and `[` as an empty one.
abbrev toy_loads : List ℕ → Option (Loaded Unit)
toy_loads [] = none
toy_loads (b ∷ bs) =
    if b == 123
    then some (dict (("type", string "event") ∷ ("length", int 3) ∷ []))
    else if b == 91
    then some (dict [])
    else some not_dict

abbrev toy : Orjson
toy = record {
  Other = Unit;
  truth = λ x. true;
  str_other = λ x. "";
  str_int = λ n. "3";
  loads = toy_loads;
}

abbrev event : EnvelopeItem toy
event = record {
  type = "event";
  payload = 1 ∷ 10 ∷ 2 ∷ [];
  header = ("type", string "event") ∷ ("length", int 3) ∷ [];
}

abbrev report : EnvelopeItem toy
report = record { type = ""; payload = 7 ∷ 8 ∷ []; header = [] }

abbrev two_items : Lines toy
two_items = (123 ∷ [], event) ∷ (91 ∷ [], report) ∷ []

abbrev both : Envelope toy
both = record { header = []; items = event ∷ report ∷ [] }

too_long : parse_envelope toy (91 ∷ 10 ∷ 123 ∷ 10 ∷ 1 ∷ 2 ∷ []) ≡ raised (length_exceeds 3 2)
unfolding parse_envelope
too_long = refl

without_newline :
    parse_envelope toy (91 ∷ 10 ∷ 10 ∷ 91 ∷ 10 ∷ 7 ∷ [])
    ≡ parsed
        (record { header = []; items = record { type = ""; payload = 7 ∷ []; header = [] } ∷ [] })
unfolding parse_envelope
without_newline = refl

two_items-IsPrintable : IsPrintable toy two_items
two_items-IsPrintable = (
  record { clean = refl; longer = λ e. omega (arith, e); loaded = refl },
  record { typed = refl; ends = refl },
  (
    record { clean = refl; longer = λ e. omega (arith, e); loaded = refl },
    record { typed = refl; ends = refl },
    tt,
  ),
)

bracket-IsLine : IsLine toy (91 ∷ []) []
bracket-IsLine = record { clean = refl; longer = λ e. omega (arith, e); loaded = refl }

parse_envelope-print_envelope_example :
    parse_envelope toy (print_envelope toy (91 ∷ []) two_items) ≡ parsed both
parse_envelope-print_envelope_example =
    parse_envelope-print_envelope toy (91 ∷ []) [] two_items bracket-IsLine two_items-IsPrintable

both_parsed : parse_envelope toy (print_envelope toy (91 ∷ []) two_items) ≡ parsed both
unfolding parse_envelope
both_parsed = refl

parse_envelope-IsFramed_example :
    All (IsFramed toy) (event ∷ report ∷ []) × (payload_bytes toy (event ∷ report ∷ []) ≤ 13)
parse_envelope-IsFramed_example =
    parse_envelope-IsFramed toy (print_envelope toy (91 ∷ []) two_items) both both_parsed

read_items_fuel_example :
    read_items toy 7 (123 ∷ 10 ∷ 1 ∷ 10 ∷ 2 ∷ 10 ∷ []) []
    ≡ read_items toy 9 (123 ∷ 10 ∷ 1 ∷ 10 ∷ 2 ∷ 10 ∷ []) []
read_items_fuel_example =
    read_items_fuel toy 7 9 (123 ∷ 10 ∷ 1 ∷ 10 ∷ 2 ∷ 10 ∷ []) [] (omega arith) (omega arith)

-- Counters that always answer.
abbrev counted : (String → ℕ) → String → String → ℕ
counted s key other = if key == other then suc (s key) else s other

abbrev counters : Redis
counters = record {
  Store = String → ℕ;
  count = λ s key. s key;
  incr = λ s key. (some (suc (s key)), counted s key);
  incr_returns = λ s key n h. (sym (some_injective h), rw (beq_refl key) (some_injective h));
  incr_grows = λ s key. rw (beq_refl key) (omega arith);
}

abbrev project : ErrorTrackingConfig
project = record { project_id = "p"; allowed_origin_wildcard = true; rate_limit_per_min = pos 2 }

abbrev no_minute : ℕ → String
no_minute n = "0"

abbrev three_requests : List (ℕ × ℕ)
three_requests = (60, 60) ∷ (61, 62) ∷ (119, 120) ∷ []

let_in-le_left_example : (let_in counters no_minute project three_requests (λ key. 0)).0 ≤ 2
unfolding effective_limit
let_in-le_left_example =
    let_in-le_left counters no_minute project 1 three_requests (λ key. 0) (refl, (refl, (refl, tt)))
