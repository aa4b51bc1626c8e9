-- ===== src/RateLimiter.antt =====
-- `_RateLimiter` of src/app/api/routers/public.py. Times are numbers of milliseconds, where the source
-- has floats of seconds; `now` is what `time.monotonic()` returns.
pub mod Keys
pub mod Backoff
use stackai_authz_service.Prelude.{
  ℕ, ◌+◌, ◌-◌, ◌*◌, ◌^◌, String, Bool, true, false, ◌&&◌, Option, none, some, ltb, leb, min,
  if◌then◌else◌, ◌==◌,
}
use stackai_authz_service.RateLimiter.Keys.{Key, Dict, get, put, pop, empty}
use stackai_authz_service.Errors.{Result, ok, err, crash}

pub record RateLimiter : Type 0 where
  pub base : ℕ
  pub max : ℕ
  pub blocked_until : Dict
  pub attempts : Dict

-- `_RateLimiter()`, with its default arguments
abbrev pub new_limiter : RateLimiter
new_limiter = record { base = 1000; max = 60000; blocked_until = empty; attempts = empty }

abbrev pub or_zero : Option ℕ → ℕ
or_zero none = 0
or_zero (some n) = n

-- `check`: the time left until the key may try again
unfoldable pub check : ℕ → RateLimiter → Key → Option ℕ
check now l key =
    let until = or_zero (get key l.blocked_until) in
    if ltb now until then some (until - now) else none

-- `self._attempts.get(key, 0)`
abbrev pub tries : RateLimiter → Key → ℕ
tries l key = or_zero (get key l.attempts)

-- `record_failure`. The integer `2 ** (attempts - 1)` is converted to a float, which raises an
-- `OverflowError` from 2 ** 1024 on; the attempt is counted by then.
unfoldable pub record_failure : ℕ → RateLimiter → Key → Result (Unit {0}) × RateLimiter
record_failure now l key =
    let attempts = tries l key + 1 in
    let counted = record l { attempts = put key attempts l.attempts } in
    if leb 1024 (attempts - 1)
    then (err crash, counted)
    else let backoff = min (l.base * 2 ^ (attempts - 1)) l.max in
      (ok tt, record counted { blocked_until = put key (now + backoff) l.blocked_until })

-- `record_success`
unfoldable pub record_success : RateLimiter → Key → RateLimiter
record_success l key = record l {
  attempts = pop key l.attempts;
  blocked_until = pop key l.blocked_until;
}
