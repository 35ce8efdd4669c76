-- ===== src/Terminal.antt =====
-- backend/app/services/terminal_router.py: `TerminalSessionRouter`. A WebSocket is the number of the
-- object, since a Python set tells them apart by identity; a set is a list without repetition.
-- The JSON text of a message and the log lines are not modelled.
pub mod Registry
pub mod Replay
pub mod Dispatch
pub mod Examples
use claude_todo.Prelude.{
  ℕ, suc, String, Bool, true, false, not, ◌||◌, Option, none, some, List, [], ◌∷◌, ◌++◌, ◌==◌,
  nat_eq, string_eq, if◌then◌else◌, ltb, length, contains, without,
}
use claude_todo.Prelude.Dict.{lookup, insert, erase}

pub record TerminalSessionRouter : Type 0 where
  pub browsers : List (String × List ℕ)

abbrev pub init : TerminalSessionRouter
init = record { browsers = [] }

-- `bucket.add(ws)`
abbrev pub add_ws : ℕ → List ℕ → List ℕ
add_ws ws bucket = if contains bucket ws then bucket else ws ∷ bucket

abbrev pub or_empty : Option (List ℕ) → List ℕ
or_empty none = []
or_empty (some bucket) = bucket

-- `setdefault(session_id, set())`
abbrev pub bucket_of : TerminalSessionRouter → String → List ℕ
bucket_of r session_id = or_empty (lookup session_id r.browsers)

unfoldable pub register : String → ℕ → TerminalSessionRouter → TerminalSessionRouter
register session_id ws r = record {
  browsers = insert session_id (add_ws ws (bucket_of r session_id)) r.browsers;
}

abbrev pub is_empty : List ℕ → Bool
is_empty [] = true
is_empty (w ∷ ws) = false

abbrev pub discard : String → ℕ → List ℕ → TerminalSessionRouter → TerminalSessionRouter
discard session_id ws bucket r =
    let rest = without ws bucket in
    if is_empty rest
    then record { browsers = erase session_id r.browsers }
    else record { browsers = insert session_id rest r.browsers }

-- The last argument is the bucket of the session. `ws=None` drops every WebSocket of the session.
abbrev pub unregister_from :
    String → Option ℕ → TerminalSessionRouter → Option (List ℕ) → TerminalSessionRouter
unregister_from session_id ws r none = r
unregister_from session_id none r (some bucket) = record { browsers = erase session_id r.browsers }
unregister_from session_id (some w) r (some bucket) =
    if not (contains bucket w) then r else discard session_id w bucket r

unfoldable pub unregister : String → Option ℕ → TerminalSessionRouter → TerminalSessionRouter
unregister session_id ws r = unregister_from session_id ws r (lookup session_id r.browsers)

unfoldable pub is_registered : TerminalSessionRouter → String → Bool
is_registered r session_id = not (is_empty (bucket_of r session_id))

-- What one dispatch does: the sends that its loop tries, in their order, and its answer. `send` says whether
-- `send_text` to a WebSocket returns.
pub record Dispatched : Type 0 where
  pub attempts : List ℕ
  pub ok_count : ℕ
  pub fail_count : ℕ
  pub received : Bool

abbrev pub nothing_sent : Dispatched
nothing_sent = record { attempts = []; ok_count = 0; fail_count = 0; received = false }

-- The loop over the targets, with its two counters and a record of the sends that it has tried; a
-- failed send does not end it.
unfoldable pub count_sends : (ℕ → Bool) → List ℕ → List ℕ → ℕ → ℕ → List ℕ × ℕ × ℕ
count_sends send [] attempts ok_count fail_count = (attempts, ok_count, fail_count)
count_sends send (w ∷ ws) attempts ok_count fail_count =
    count_sends send ws (attempts ++ w ∷ []) (if send w then suc ok_count else ok_count)
      (if send w then fail_count else suc fail_count)

-- `session_id` is that of the payload, if it has one.
unfoldable pub dispatch : (ℕ → Bool) → Option String → TerminalSessionRouter → Dispatched
unfolding count_sends
dispatch send none r = nothing_sent
dispatch send (some session_id) r =
    if session_id == "" then nothing_sent else elim (bucket_of r session_id) [
      | [] ↦ nothing_sent
      | w ∷ ws ↦
          let (attempts, ok_count, fail_count) = count_sends send (w ∷ ws) [] 0 0 in
          record {
            attempts = attempts;
            ok_count = ok_count;
            fail_count = fail_count;
            received = ltb 0 ok_count;
          }
    ]
