-- ===== src/RateLimiter/Backoff.antt =====
-- What a failure, a success and a run of failures do to the checks that follow.
use stackai_authz_service.Prelude.{
  ℕ, ◌+◌, ◌-◌, ◌*◌, ◌^◌, ◌≤◌, ◌<◌, ◌≡◌, refl, ◌∙◌, Option, none, some, List, [], ◌∷◌, arith, ltb,
  min, if◌then◌else◌, length,
}
use stackai_authz_service.Errors.{ok, err, crash}
use stackai_authz_service.RateLimiter.{RateLimiter, check, tries, record_failure, record_success}
use stackai_authz_service.RateLimiter.Keys.{Key, key_eq, key_eq_refl, get-put, get-pop}

-- The pause after a failure that follows `n` others.
abbrev pub pause : RateLimiter → ℕ → ℕ
pause l n = min (l.base * 2 ^ n) l.max

abbrev pub fail : ℕ → RateLimiter → Key → RateLimiter
fail now l key = (record_failure now l key).1

-- The wait that a time of release leaves at the time `t`.
abbrev pub wait : ℕ → ℕ → Option ℕ
wait until t = if ltb t until then some (until - t) else none

tries-fail : (now : ℕ) (l : RateLimiter) (k : Key) → tries (fail now l k) k ≡ tries l k + 1
unfolding record_failure
tries-fail now l k = ground (arith, get-put k k (tries l k + 1) l.attempts, key_eq_refl k)

-- A failure at `now`, while fewer than 1024 failures are counted, lets the key wait until the pause
-- has passed, a pause that doubles with every counted failure up to the maximum; every other key is
-- checked as before.
pub check-record_failure :
    (now t : ℕ) (l : RateLimiter) (k j : Key)
    → tries l k < 1024
    → ((record_failure now l k).0 ≡ ok tt)
      × (check t (fail now l k) j
          ≡ (if key_eq k j then wait (now + pause l (tries l k)) t else check t l j))
unfolding record_failure check
check-record_failure now t l k j h =
    let e : tries l k + 1 - 1 ≡ tries l k = omega arith in
    rw e (ground arith, ground (arith, get-put k j (now + pause l (tries l k)) l.blocked_until))

-- A success lets the key try at once and forgets its failures; every other key is left alone.
pub check-record_success :
    (t : ℕ) (l : RateLimiter) (k j : Key)
    → (check t (record_success l k) j ≡ (if key_eq k j then none else check t l j))
      × (tries (record_success l k) j ≡ (if key_eq k j then 0 else tries l j))
unfolding record_success check
check-record_success t l k j =
    (ground (arith, get-pop k j l.blocked_until), ground (arith, get-pop k j l.attempts))

-- From the 1025th counted failure on, a failure raises and leaves the time of release as it was.
pub record_failure-overflow :
    (now t : ℕ) (l : RateLimiter) (k j : Key)
    → 1024 ≤ tries l k
    → ((record_failure now l k).0 ≡ err crash) × (check t (fail now l k) j ≡ check t l j)
unfolding record_failure check
record_failure-overflow now t l k j h =
    let e : tries l k + 1 - 1 ≡ tries l k = omega arith in rw e (ground arith, ground arith)

-- Failures at the given times, the last of them first.
abbrev pub fail_all : List ℕ → RateLimiter → Key → RateLimiter
fail_all [] l k = l
fail_all (now ∷ before) l k = fail now (fail_all before l k) k

tries-fail_all :
    (times : List ℕ) (l : RateLimiter) (k : Key)
    → tries (fail_all times l k) k ≡ length times + tries l k
tries-fail_all [] l k = omega arith
tries-fail_all (now ∷ before) l k =
    omega (arith, tries-fail now (fail_all before l k) k, tries-fail_all before l k)

limits-fail :
    (now : ℕ) (l : RateLimiter) (k : Key)
    → ((fail now l k).base ≡ l.base) × ((fail now l k).max ≡ l.max)
unfolding record_failure
limits-fail now l k = (ground arith, ground arith)

limits-fail_all :
    (times : List ℕ) (l : RateLimiter) (k : Key)
    → ((fail_all times l k).base ≡ l.base) × ((fail_all times l k).max ≡ l.max)
limits-fail_all [] l k = (refl, refl)
limits-fail_all (now ∷ before) l k =
    let (b, m) = limits-fail now (fail_all before l k) k in
    let (b', m') = limits-fail_all before l k in (b ∙ b', m ∙ m')

-- After up to 1024 failures of a key in a row, counted from a key without failures, the key waits from
-- the last of them for the base pause doubled with each failure but the first, up to the maximum;
-- then it may try again.
pub check-fail_all :
    (now t : ℕ) (before : List ℕ) (l : RateLimiter) (k : Key)
    → tries l k ≡ 0
    → length before < 1024
    → check t (fail_all (now ∷ before) l k) k
      ≡ wait (now + min (l.base * 2 ^ length before) l.max) t
check-fail_all now t before l k fresh short =
    let count : tries (fail_all before l k) k ≡ length before =
      omega (arith, tries-fail_all before l k) in
    let (b, m) = limits-fail_all before l k in
    (check-record_failure now t (fail_all before l k) k k (omega (arith, count))).1
    ∙ rw (key_eq_refl k) (rw count (rw b (rw m)))

check-fail_all_blocked :
    (t : ℕ) (times : List ℕ) (l : RateLimiter) (k : Key)
    → 1024 ≤ tries l k
    → check t (fail_all times l k) k ≡ check t l k
check-fail_all_blocked t [] l k h = refl
check-fail_all_blocked t (now ∷ before) l k h =
    (record_failure-overflow now t (fail_all before l k) k k
      (omega (arith, tries-fail_all before l k))).1
    ∙ check-fail_all_blocked t before l k h

-- Once 1024 failures of a key are counted, no further failure, however many follow, makes the key
-- wait any longer: after any number of them the next one raises too, and the check answers as before
-- all of them.
pub check-fail_all_overflow :
    (now t : ℕ) (times : List ℕ) (l : RateLimiter) (k : Key)
    → 1024 ≤ tries l k
    → ((record_failure now (fail_all times l k) k).0 ≡ err crash)
      × (check t (fail_all times l k) k ≡ check t l k)
check-fail_all_overflow now t times l k h = (
  (record_failure-overflow now t (fail_all times l k) k k
      (omega (arith, tries-fail_all times l k))).0,
  check-fail_all_blocked t times l k h,
)
