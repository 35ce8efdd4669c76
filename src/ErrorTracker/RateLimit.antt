-- ===== src/ErrorTracker/RateLimit.antt =====
-- backend/app/services/error_tracker/rate_limit.py: a counter in Redis for each project and minute.
-- Times are whole seconds; `check` reads the clock for the minute and again for the answer.
pub mod Minute
use Prim.Native.String.{◌++◌ as append}
use claude_todo.Prelude.{
  ℕ, suc, ◌-◌, ◌/◌, ◌%◌, ◌≤◌, String, ◌≡◌, Bool, true, false, Option, none, some, if◌then◌else◌,
  ltb,
}

pub data ℤ : Type 0 where
  pos negsuc : ℕ → ℤ

-- The fields of the project's settings that the limiter reads.
pub record ErrorTrackingConfig : Type 0 where
  pub project_id : String
  pub allowed_origin_wildcard : Bool
  pub rate_limit_per_min : ℤ

abbrev pub wildcard_cap : ℕ
wildcard_cap = 300

pub record RateDecision : Type 0 where
  pub allowed : Bool
  pub remaining : ℕ
  pub retry_after_sec : ℕ
  pub limit : ℕ

abbrev pub min_cap : ℤ → ℤ
min_cap (pos n) = pos (if ltb n wildcard_cap then n else wildcard_cap)
min_cap (negsuc n) = negsuc n

abbrev pub max_one : ℤ → ℕ
max_one (pos n) = if ltb 1 n then n else 1
max_one (negsuc n) = 1

unfoldable pub effective_limit : ErrorTrackingConfig → ℕ
effective_limit project = max_one (
    if project.allowed_origin_wildcard
    then min_cap project.rate_limit_per_min
    else project.rate_limit_per_min)

-- Redis: `incr` is INCR and EXPIRE in one pipeline, and is `none` where the call raises. A counter
-- lives for 120 seconds, longer than the minute that its name is used in.
pub record Redis : Type 1 where
  pub Store : Type 0
  pub count : Store → String → ℕ
  pub incr : Store → String → Option ℕ × Store
  pub incr_returns :
      (s : Store) (key : String) (n : ℕ)
      → (incr s key).0 ≡ some n
      → (n ≡ suc (count s key)) × (count (incr s key).1 key ≡ n)
  pub incr_grows : (s : Store) (key : String) → count s key ≤ count (incr s key).1 key

-- `str` of an int is a parameter.
module _ (r : Redis) (str : ℕ → String) (project : ErrorTrackingConfig) where
  open r use {Store, incr}

  abbrev pub key_of : ℕ → String
  key_of minute = append "ratelimit:error:" (append project.project_id (append ":" (str minute)))

  abbrev pub decide : ℕ → Option ℕ → RateDecision
  decide later none = record {
    allowed = false;
    remaining = 0;
    retry_after_sec = 60;
    limit = effective_limit project;
  }
  decide later (some count) =
      let limit = effective_limit project in
      if ltb limit count
      then record {
        allowed = false;
        remaining = 0;
        retry_after_sec = 60 - later % 60;
        limit = limit;
      }
      else record { allowed = true; remaining = limit - count; retry_after_sec = 0; limit = limit }

  unfoldable pub check : ℕ → ℕ → Store → RateDecision × Store
  check now later s = let (count, s') = incr s (key_of (now / 60)) in (decide later count, s')
