-- ===== src/Authentication/Refetch.antt =====
-- `_maybe_refetch` and the fetches of `_decode` of src/app/auth/jwt.py: how often the signing keys are
-- fetched for one key id. Times are milliseconds of the monotonic clock. PyJWKClient is not modelled:
-- how often its `get_signing_key_from_jwt` fetches the keys itself comes with each token.
use stackai_authz_service.Prelude.{
  ℕ, suc, ◌+◌, ◌-◌, ◌*◌, ◌≤◌, String, ◌≡◌, refl, sym, subst, ◌∙◌, Bool, true, false, Option, none,
  some, List, [], ◌∷◌, lookup, insert, All, ltb, if◌then◌else◌, ◌==◌, arith, eq_iff, Bool-cases,
  inl, inr,
}

-- `_REFETCH_INTERVAL_SECONDS`
abbrev pub refetch_interval : ℕ
refetch_interval = 60000

abbrev or_zero : Option ℕ → ℕ
or_zero none = 0
or_zero (some t) = t

-- `self._last_refetch.get(kid, 0.0)`
unfoldable pub last_refetch : String → List (String × ℕ) → ℕ
last_refetch kid refetches = or_zero (lookup kid refetches)

-- `_maybe_refetch`: whether `fetch_data` is called, and the times after it.
unfoldable pub maybe_refetch : ℕ → String → List (String × ℕ) → Bool × List (String × ℕ)
unfolding last_refetch
maybe_refetch now kid refetches =
    if ltb (now - last_refetch kid refetches) refetch_interval
    then (false, refetches)
    else (true, insert kid now refetches)

abbrev pub count_if : Bool → ℕ → ℕ
count_if true n = suc n
count_if false n = n

-- A token: its time, its key id, and how often `get_signing_key_from_jwt` fetches the keys for it.
abbrev pub Token : Type 0
Token = ℕ × String × ℕ

-- The fetches of `_decode` for a token: that of `_maybe_refetch`, then those of
-- `get_signing_key_from_jwt`; and the times after them.
unfoldable pub fetches_of : Token → List (String × ℕ) → ℕ × List (String × ℕ)
unfolding maybe_refetch
fetches_of (now, kid, own) refetches =
    let (fetched, after) = maybe_refetch now kid refetches in (count_if fetched own, after)

-- How often the keys are fetched for the key id `kid` in a sequence of tokens.
unfoldable pub fetches : String → List Token → List (String × ℕ) → ℕ
unfolding fetches_of
fetches kid [] refetches = 0
fetches kid ((now, other, own) ∷ rest) refetches =
    let (m, after) = fetches_of (now, other, own) refetches in
    let n = fetches kid rest after in if other == kid then m + n else n

-- The fetches of `get_signing_key_from_jwt` among them.
unfoldable pub own_fetches : String → List Token → ℕ
own_fetches kid [] = 0
own_fetches kid ((now, other, own) ∷ rest) =
    let n = own_fetches kid rest in if other == kid then own + n else n

last_refetch-insert :
    (kid other : String) (now : ℕ) (refetches : List (String × ℕ))
    → last_refetch kid (insert other now refetches)
      ≡ (if other == kid then now else last_refetch kid refetches)
unfolding last_refetch
last_refetch-insert kid other now [] = ground arith
last_refetch-insert kid other now ((k, t) ∷ rest) =
    ground (
      arith,
      last_refetch-insert kid other now rest,
      eq_iff k other,
      eq_iff k kid,
      eq_iff other kid,
    )

-- Whatever tokens come until the time `end`, `_decode` fetches the keys for one key id at most once per
-- interval beyond the fetches that `get_signing_key_from_jwt` makes itself, which no interval limits:
-- the other fetches and the intervals between them fit into the time since the last fetch.
pub fetches-interval :
    (kid : String) (end : ℕ) (tokens : List Token) (refetches : List (String × ℕ))
    → All (λ token. token.0 ≤ end) tokens
    → last_refetch kid refetches ≤ end
    → fetches kid tokens refetches * refetch_interval + last_refetch kid refetches
      ≤ end + own_fetches kid tokens * refetch_interval
unfolding fetches fetches_of own_fetches
fetches-interval kid end [] refetches early h = omega arith
fetches-interval kid end ((now, other, own) ∷ rest) refetches (here, early) h =
    elim (Bool-cases (ltb (now - last_refetch other refetches) refetch_interval)) [
      | inl soon ↦
          rw (soon, maybe_refetch)
            (let rest_fits = fetches-interval kid end rest refetches early h in
              elim (Bool-cases (other == kid)) [
                | inl same ↦ rw same (omega arith)
                | inr apart ↦ rw apart (omega arith)
              ])
      | inr due ↦ elim (Bool-cases (other == kid)) [
        | inl same ↦
            (let after = insert other now refetches in
              let moved : last_refetch kid after ≡ now =
                last_refetch-insert kid other now refetches ∙ rw same refl in
              let later =
                fetches-interval kid end rest after early (subst (λ t. t ≤ end) (sym moved) here) in
              let fits : fetches kid rest after * refetch_interval + now
                  ≤ end + own_fetches kid rest * refetch_interval =
                subst
                  (λ t.
                    fetches kid rest after * refetch_interval + t
                    ≤ end + own_fetches kid rest * refetch_interval)
                  moved later in
              let spaced : last_refetch kid refetches + refetch_interval ≤ now =
                subst (λ k. last_refetch k refetches + refetch_interval ≤ now)
                  ((eq_iff other kid).0 same) (ground arith) in
              rw (due, same, maybe_refetch) (omega arith))
        | inr apart ↦
            (let after = insert other now refetches in
              let still : last_refetch kid after ≡ last_refetch kid refetches =
                last_refetch-insert kid other now refetches ∙ rw apart refl in
              let later =
                fetches-interval kid end rest after early (subst (λ t. t ≤ end) (sym still) h) in
              rw (due, apart, maybe_refetch)
                (subst
                  (λ t.
                    fetches kid rest after * refetch_interval + t
                    ≤ end + own_fetches kid rest * refetch_interval)
                  still later))
      ]
    ]
