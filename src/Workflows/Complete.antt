-- ===== src/Workflows/Complete.antt =====
-- A page and the pages after it show exactly the rows that the caller may see.
use stackai_authz_service.Prelude.{
  ℕ, ◌≤◌, ◌<◌, String, Bool, true, false, ◌≡◌, refl, sym, ◌∙◌, ap, subst, Option, none, some, List,
  ◌∷◌, ◌++◌, length, take, drop, last, keep, ltb, arith, append_assoc, take-drop, keep-append,
  length-append, length-take, take-all, drop-short, last-none, keep-last, Bool-cases, Option-cases,
  inl, inr, ◌⊎◌, ◌==◌, [],
}
use stackai_authz_service.Provider.{WorkflowRow}
use stackai_authz_service.Errors.{Result, ok}
use stackai_authz_service.Workflows.{WorkflowPage, Scan, applied, page_of, fill_page}
use stackai_authz_service.Workflows.Pages.{IsOrdered, after, after_row, left_over}
use stackai_authz_service.Workflows.Scans.{IsListing, IsScanned, IsResumable, scan-IsScanned}

module _ {M : Type 0} (later : String → String → Bool)
    (query : Option String → ℕ → List WorkflowRow)
    (judge : M → List WorkflowRow → Result (List WorkflowRow × M)) (Good : M → Type 0)
    (allowed : WorkflowRow → Bool) (table before start : List WorkflowRow)
    (listing : IsListing later query judge Good allowed table before start) (limit : ℕ) where
  -- A page of a range: short enough, and with what its cursor leaves over it makes up the allowed
  -- rows of the range; a cursor that is not the end leaves a smaller range, a tail of the table.
  pub record IsPage (page : WorkflowPage) : Type 0 where
    pub fits : length page.items ≤ limit
    pub complete :
        keep allowed start ≡ page.items ++ keep allowed (left_over later page.next_cursor table)
    pub shrinks :
        (page.next_cursor ≡ none)
        ⊎ ((c : String) × (front : List WorkflowRow) × (page.next_cursor ≡ some c)
            × ((c == "") ≡ false)
            × (table ≡ front ++ after later (some c) table)
            × (length (after later (some c) table) < length start))

  page_of-cut :
      (s : Scan M) (done rest : List WorkflowRow) (row : WorkflowRow)
      → IsScanned later query judge Good allowed table before start listing limit s done rest
      → (ltb limit (length s.survivors)) ≡ true
      → last (take limit s.survivors) ≡ some row
      → (page : WorkflowPage) × (page_of query judge limit s ≡ ok page) × IsPage page
  unfolding page_of
  page_of-cut s done rest row scanned long final =
      let (front, back, cut, others) =
        keep-last allowed limit done row
          (ap (λ l. last (take limit l)) (sym scanned.kept) ∙ final) in
      let ahead : start ≡ front ++ (row ∷ (back ++ rest)) =
        scanned.range ∙ ap (λ l. l ++ rest) cut ∙ append_assoc front (row ∷ back) rest in
      let whole : table ≡ (before ++ front) ++ (row ∷ (back ++ rest)) =
        listing.split
        ∙ ap (λ l. before ++ l) ahead
        ∙ sym (append_assoc before front (row ∷ (back ++ rest))) in
      let (behind, named) =
        after_row later (before ++ front) row (back ++ rest)
          (subst (IsOrdered later) whole listing.ordered) in
      let resumed : after later (some row.id) table ≡ back ++ rest =
        ap (after later (some row.id)) whole ∙ behind in
      (
        record { items = take limit s.survivors; next_cursor = some row.id },
        rw (long, final) refl,
        record {
          fits = length-take limit s.survivors;
          complete =
              ap (keep allowed) scanned.range
              ∙ keep-append allowed done rest
              ∙ ap (λ l. l ++ keep allowed rest) (sym (take-drop limit (keep allowed done)))
              ∙ append_assoc (take limit (keep allowed done)) (drop limit (keep allowed done))
                  (keep allowed rest)
              ∙ ap (λ l. take limit l ++ (drop limit (keep allowed done) ++ keep allowed rest))
                  (sym scanned.kept)
              ∙ ap (λ l. take limit s.survivors ++ (l ++ keep allowed rest)) (sym others)
              ∙ ap (λ l. take limit s.survivors ++ l) (sym (keep-append allowed back rest))
              ∙ ap (λ l. take limit s.survivors ++ keep allowed l) (sym resumed);
          shrinks = inr (
            row.id,
            (before ++ front) ++ (row ∷ []),
            refl,
            named,
            whole
                ∙ sym (append_assoc (before ++ front) (row ∷ []) (back ++ rest))
                ∙ ap (λ l. ((before ++ front) ++ (row ∷ [])) ++ l) (sym resumed),
            omega (
              arith,
              ap length resumed,
              ap length ahead,
              length-append front (row ∷ (back ++ rest)),
            ),
          );
        },
      )

  page_of-whole :
      (s : Scan M) (done rest : List WorkflowRow)
      → IsScanned later query judge Good allowed table before start listing limit s done rest
      → IsResumable later query judge Good allowed table before start listing limit s rest
      → (ltb limit (length s.survivors)) ≡ false
      → (page : WorkflowPage) × (page_of query judge limit s ≡ ok page) × IsPage page
  unfolding page_of
  page_of-whole s done rest scanned resumable short =
      let items : take limit s.survivors ≡ keep allowed done =
        take-all limit s.survivors (ground arith) ∙ scanned.kept in
      let shown : keep allowed start ≡ take limit s.survivors ++ keep allowed rest =
        ap (keep allowed) scanned.range
        ∙ keep-append allowed done rest
        ∙ ap (λ l. l ++ keep allowed rest) (sym items) in
      elim (Bool-cases s.exhausted) [
        | inl over ↦ (
          record { items = take limit s.survivors; next_cursor = none },
          rw (short, over) refl,
          record {
            fits = length-take limit s.survivors;
            complete =
                shown ∙ ap (λ l. take limit s.survivors ++ keep allowed l) (scanned.over over);
            shrinks = inl refl;
          },
        )
        | inr running ↦ elim resumable [
          | inl over ↦ absurd (ground arith)
          | inr (c, noted, named, resumed, shorter) ↦ (
            record { items = take limit s.survivors; next_cursor = some c },
            rw (short, running, noted) refl,
            record {
              fits = length-take limit s.survivors;
              complete = shown ∙ ap (λ l. take limit s.survivors ++ keep allowed l) (sym resumed);
              shrinks = inr (
                c,
                before ++ done,
                refl,
                named,
                listing.split
                    ∙ ap (λ l. before ++ l) scanned.range
                    ∙ sym (append_assoc before done rest)
                    ∙ ap (λ l. (before ++ done) ++ l) (sym resumed),
                omega (arith, ap length resumed),
              );
            },
          )
        ]
      ]

  -- With a positive limit, on a table in the order of the ids whose rows behind the given cursor are a
  -- tail of it, where the query takes the first rows behind its cursor and the decisions about rows of
  -- the table do not fail and depend on the row alone, from a memo that is good for them, the
  -- endpoint returns a page: at most as many rows as the limit, and exactly the allowed rows behind
  -- the given cursor up to those behind the next cursor, none twice and none left out; no next cursor
  -- means that none is left, and a next cursor, which is not the empty text, leaves fewer rows to go
  -- through.
  pub fill_page-IsPage :
      (cursor : Option String) (memo : M)
      → 0 < limit
      → Good memo
      → after later (applied cursor) table ≡ start
      → (page : WorkflowPage) × (fill_page query judge limit memo cursor ≡ ok page) × IsPage page
  unfolding fill_page
  fill_page-IsPage cursor memo some_limit good from =
      let (s, done, rest, scanned, kept, resumable) =
        scan-IsScanned later query judge Good allowed table before start listing limit 4 cursor memo
          some_limit good from in
      elim (Bool-cases (ltb limit (length s.survivors))) [
        | inr short ↦
            (let (page, result, good) = page_of-whole s done rest kept resumable short in
              (page, rw (scanned, fill_page) result, good))
        | inl long ↦ elim (Option-cases (last (take limit s.survivors))) [
          | inr (row, final) ↦
              (let (page, result, good) = page_of-cut s done rest row kept long final in
                (page, rw (scanned, fill_page) result, good))
          | inl nothing ↦
              (let empty = last-none (take limit s.survivors) nothing in
                let whole = take-drop limit s.survivors in
                let behind = drop-short limit s.survivors (omega (arith, ap length empty)) in
                absurd (
                  ground (
                    arith,
                    ap length whole,
                    length-append (take limit s.survivors) (drop limit s.survivors),
                    ap length empty,
                    ap length behind,
                  )))
        ]
      ]
