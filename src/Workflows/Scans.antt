-- ===== src/Workflows/Scans.antt =====
-- The loop of the list endpoint: what its variables say of the rows that it has gone through.
use stackai_authz_service.Prelude.{
  ℕ, zero, suc, ◌*◌, ◌<◌, String, Bool, true, false, ◌≡◌, refl, sym, ◌∙◌, ap, subst, ◌&&◌, not,
  ◌==◌, Option, none, some, List, [], ◌∷◌, ◌++◌, length, take, drop, last, keep, ltb, arith,
  append_assoc, take-drop, keep-append, length-append, drop-short, last-split, last-none,
  Bool-cases, Option-cases, inl, inr, ◌⊎◌,
}
use stackai_authz_service.Provider.{WorkflowRow}
use stackai_authz_service.Errors.{Result, ok}
use stackai_authz_service.Workflows.{overfetch_factor, Scan, applied, refill, scan}
use stackai_authz_service.Workflows.Pages.{IsOrdered, after, after_row}

-- A table and the rows behind the cursor that a page starts from, with what the query and the
-- decisions do: the query takes the first rows behind its cursor, and the decision about a row of the
-- table depends on the row alone and keeps the memo as `Good` says.
pub record IsListing {M : Type 0} (later : String → String → Bool)
    (query : Option String → ℕ → List WorkflowRow)
    (judge : M → List WorkflowRow → Result (List WorkflowRow × M)) (Good : M → Type 0)
    (allowed : WorkflowRow → Bool) (table before start : List WorkflowRow) : Type 0 where
  pub ordered : IsOrdered later table
  pub split : table ≡ before ++ start
  pub queried : (c : Option String) (n : ℕ) → query c n ≡ take n (after later c table)
  pub judged :
      (m : M) (front rows back : List WorkflowRow)
      → Good m
      → table ≡ front ++ (rows ++ back)
      → (n : M) × (judge m rows ≡ ok (keep allowed rows, n)) × Good n

module _ {M : Type 0} (later : String → String → Bool)
    (query : Option String → ℕ → List WorkflowRow)
    (judge : M → List WorkflowRow → Result (List WorkflowRow × M)) (Good : M → Type 0)
    (allowed : WorkflowRow → Bool) (table before start : List WorkflowRow)
    (listing : IsListing later query judge Good allowed table before start) (limit : ℕ) where
  -- The rows of the page's range that have been fetched, and those that have not.
  pub record IsScanned (s : Scan M) (done rest : List WorkflowRow) : Type 0 where
    pub range : start ≡ done ++ rest
    pub kept : s.survivors ≡ keep allowed done
    pub next : after later (applied s.fetch_cursor) table ≡ rest
    pub over : s.exhausted ≡ true → rest ≡ []
    pub good : Good s.memo

  -- The last fetched id tells where to go on, further than the start, unless nothing is left.
  abbrev pub IsResumable : Scan M → List WorkflowRow → Type 0
  IsResumable s rest =
      (s.exhausted ≡ true)
      ⊎ ((c : String) × (s.last_fetched_id ≡ some c)
          × ((c == "") ≡ false)
          × (after later (some c) table ≡ rest)
          × (length rest < length start))

  refill-full :
      (s : Scan M) (done rest : List WorkflowRow) (final : WorkflowRow)
      → IsScanned s done rest
      → last (take (limit * overfetch_factor) rest) ≡ some final
      → (t : Scan M) × (refill query judge limit s ≡ ok t)
        × IsScanned t
            (done ++ take (limit * overfetch_factor) rest)
            (drop (limit * overfetch_factor) rest)
        × IsResumable t (drop (limit * overfetch_factor) rest)
  unfolding refill
  refill-full s done rest final scanned h =
      let n = limit * overfetch_factor in
      let parts : table ≡ (before ++ done) ++ (take n rest ++ drop n rest) =
        listing.split
        ∙ ap (λ l. before ++ l) (scanned.range ∙ ap (λ l. done ++ l) (sym (take-drop n rest)))
        ∙ sym (append_assoc before done (take n rest ++ drop n rest)) in
      let (m, decided, good) =
        listing.judged s.memo (before ++ done) (take n rest) (drop n rest) scanned.good parts in
      let (init, rows) = last-split (take n rest) final h in
      let tail = drop n rest in
      let fetched : query (applied s.fetch_cursor) n ≡ take n rest =
        listing.queried (applied s.fetch_cursor) n ∙ ap (take n) scanned.next in
      let ahead : rest ≡ init ++ (final ∷ tail) =
        sym (take-drop n rest) ∙ ap (λ l. l ++ tail) rows ∙ append_assoc init (final ∷ []) tail in
      let whole : table ≡ (before ++ (done ++ init)) ++ (final ∷ tail) =
        listing.split
        ∙ ap (λ l. before ++ l)
            (scanned.range
              ∙ ap (λ l. done ++ l) ahead
              ∙ sym (append_assoc done init (final ∷ tail)))
        ∙ sym (append_assoc before (done ++ init) (final ∷ tail)) in
      let (behind, named) =
        after_row later (before ++ (done ++ init)) final tail
          (subst (IsOrdered later) whole listing.ordered) in
      let resumed : after later (some final.id) table ≡ tail =
        ap (after later (some final.id)) whole ∙ behind in
      let shorter : length tail < length start = omega (
        arith,
        ap length scanned.range,
        length-append done rest,
        ap length ahead,
        length-append init (final ∷ tail),
      ) in
      let t : Scan M = record {
        survivors = s.survivors ++ keep allowed (take n rest);
        fetch_cursor = some final.id;
        last_fetched_id = some final.id;
        exhausted = ltb (length (take n rest)) n;
        memo = m;
      } in
      (
        t,
        rw (ap last fetched ∙ h, refill)
            (rw (ap (judge s.memo) fetched ∙ decided) (rw fetched refl)),
        record {
          range =
              scanned.range
              ∙ ap (λ l. done ++ l) (sym (take-drop n rest))
              ∙ sym (append_assoc done (take n rest) tail);
          kept =
              ap (λ l. l ++ keep allowed (take n rest)) scanned.kept
              ∙ sym (keep-append allowed done (take n rest));
          next = rw named resumed;
          over = λ short. drop-short n rest (ground arith);
          good = good;
        },
        inr (final.id, refl, named, resumed, shorter),
      )

  refill-IsScanned :
      (s : Scan M) (done rest : List WorkflowRow)
      → 0 < limit
      → IsScanned s done rest
      → (t : Scan M) × (done' : List WorkflowRow) × (rest' : List WorkflowRow) × (refill query judge
            limit s
          ≡ ok t)
        × IsScanned t done' rest'
        × IsResumable t rest'
  unfolding refill
  refill-IsScanned s done rest some_limit scanned =
      elim (Option-cases (last (take (limit * overfetch_factor) rest))) [
        | inl nothing ↦
            (let n = limit * overfetch_factor in
              let fetched : query (applied s.fetch_cursor) n ≡ take n rest =
                listing.queried (applied s.fetch_cursor) n ∙ ap (take n) scanned.next in
              let empty : rest ≡ [] =
                sym (take-drop n rest)
                ∙ ap (λ l. l ++ drop n rest) (last-none (take n rest) nothing)
                ∙ drop-short n rest (omega (arith, ap length (last-none (take n rest) nothing))) in
              (
                record s { exhausted = true },
                done,
                rest,
                rw (ap last fetched ∙ nothing, refill) refl,
                record {
                  range = scanned.range;
                  kept = scanned.kept;
                  next = scanned.next;
                  over = λ e. empty;
                  good = scanned.good;
                },
                inl refl,
              ))
        | inr (final, some_row) ↦
            (let (t, refilled, scanned', resumable) =
                refill-full s done rest final scanned some_row in
              (t, _, _, refilled, scanned', resumable))
      ]

  scan-IsResumable :
      (rounds : ℕ) (s : Scan M) (done rest : List WorkflowRow)
      → 0 < limit
      → IsScanned s done rest
      → IsResumable s rest
      → (t : Scan M) × (done' : List WorkflowRow) × (rest' : List WorkflowRow) × (scan query judge
            limit rounds s
          ≡ ok t)
        × IsScanned t done' rest'
        × IsResumable t rest'
  unfolding scan
  scan-IsResumable zero s done rest some_limit scanned resumable =
      (s, done, rest, refl, scanned, resumable)
  scan-IsResumable (suc rounds) s done rest some_limit scanned resumable =
      elim (Bool-cases (ltb (length s.survivors) limit && not s.exhausted)) [
        | inr stop ↦ (s, done, rest, rw stop refl, scanned, resumable)
        | inl more ↦
            (let (t, done', rest', refilled, scanned', resumable') =
                refill-IsScanned s done rest some_limit scanned in
              let (u, done'', rest'', result, scanned'', resumable'') =
                scan-IsResumable rounds t done' rest' some_limit scanned' resumable' in
              (u, done'', rest'', rw (more, refilled) result, scanned'', resumable''))
      ]

  -- With a positive limit, one round and more go through a first part of the range, keep its allowed
  -- rows, and can be resumed where they stop.
  pub scan-IsScanned :
      (rounds : ℕ) (cursor : Option String) (memo : M)
      → 0 < limit
      → Good memo
      → after later (applied cursor) table ≡ start
      → (t : Scan M) × (done : List WorkflowRow) × (rest : List WorkflowRow) × (scan query judge
            limit
            (suc rounds)
            (record {
              survivors = [];
              fetch_cursor = cursor;
              last_fetched_id = none;
              exhausted = false;
              memo = memo;
            })
          ≡ ok t)
        × IsScanned t done rest
        × IsResumable t rest
  unfolding scan
  scan-IsScanned rounds cursor memo some_limit good from =
      let s : Scan M = record {
        survivors = [];
        fetch_cursor = cursor;
        last_fetched_id = none;
        exhausted = false;
        memo = memo;
      } in
      let scanned : IsScanned s [] start = record {
        range = refl;
        kept = refl;
        next = from;
        over = λ e. absurd (ground arith);
        good = good;
      } in
      let (t, done, rest, refilled, scanned', resumable) =
        refill-IsScanned s [] start some_limit scanned in
      let (u, done', rest', result, scanned'', resumable') =
        scan-IsResumable rounds t done rest some_limit scanned' resumable in
      let more : (ltb 0 limit && not false) ≡ true = ground arith in
      (u, done', rest', rw (more, refilled) result, scanned'', resumable')
