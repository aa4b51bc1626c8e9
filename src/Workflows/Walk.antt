-- ===== src/Workflows/Walk.antt =====
-- A client of the list endpoint that asks for one page after another.
use stackai_authz_service.Prelude.{
  ℕ, zero, suc, ◌<◌, String, Bool, ◌≡◌, refl, sym, ◌∙◌, ap, Option, none, some, List, [], ◌++◌,
  length, keep, arith, append-nil, inl, inr,
}
use stackai_authz_service.Provider.{WorkflowRow}
use stackai_authz_service.Errors.{Result, ok, err}
use stackai_authz_service.Workflows.{WorkflowPage, applied, fill_page}
use stackai_authz_service.Workflows.Pages.{after, left_over}
use stackai_authz_service.Workflows.Scans.{IsListing}
use stackai_authz_service.Workflows.Complete.{fill_page-IsPage}

-- The rows of all pages from a cursor on, each request with the cursor of the page before; `none` if a
-- request fails or the given number of requests is not enough.
unfoldable pub walk :
    (Option String → Result WorkflowPage) → ℕ → Option String → Option (List WorkflowRow)
walk page_at zero cursor = none
walk page_at (suc n) cursor = elim (page_at cursor) [
  | err e ↦ none
  | ok page ↦ elim page.next_cursor [
    | none ↦ some page.items
    | some c ↦ elim (walk page_at n (some c)) [
      | none ↦ none
      | some rows ↦ some (page.items ++ rows)
    ]
  ]
]

module _ (page_at : Option String → Result WorkflowPage) where
  -- A page without a next cursor ends the walk.
  pub walk_end :
      (n : ℕ) (cursor : Option String) (page : WorkflowPage)
      → page_at cursor ≡ ok page
      → page.next_cursor ≡ none
      → walk page_at (suc n) cursor ≡ some page.items
  unfolding walk
  walk_end n cursor page result end = rw (result, end, walk) refl

  walk_on :
      (n : ℕ) (cursor : Option String) (page : WorkflowPage) (c : String) (rows : List WorkflowRow)
      → page_at cursor ≡ ok page
      → page.next_cursor ≡ some c
      → walk page_at n (some c) ≡ some rows
      → walk page_at (suc n) cursor ≡ some (page.items ++ rows)
  unfolding walk
  walk_on n cursor page c rows result next rest = rw (result, next, rest, walk) refl

module _ {M : Type 0} (later : String → String → Bool)
    (query : Option String → ℕ → List WorkflowRow)
    (judge : M → List WorkflowRow → Result (List WorkflowRow × M)) (Good : M → Type 0)
    (allowed : WorkflowRow → Bool) (table : List WorkflowRow) (limit : ℕ) where
  -- The rest of the walk, from a cursor whose rows are a tail of the table.
  walk-from :
      (n : ℕ) (before start : List WorkflowRow) (cursor : Option String) (memo : M)
      → IsListing later query judge Good allowed table before start
      → 0 < limit
      → Good memo
      → after later (applied cursor) table ≡ start
      → length start < n
      → walk (fill_page query judge limit memo) n cursor ≡ some (keep allowed start)
  unfolding walk
  walk-from zero before start cursor memo listing some_limit good from h = absurd (omega arith)
  walk-from (suc n) before start cursor memo listing some_limit good from h =
      let (page, result, is_page) =
        fill_page-IsPage later query judge Good allowed table before start listing limit cursor memo
          some_limit good from in
      elim is_page.shrinks [
        | inl end ↦
            walk_end (fill_page query judge limit memo) n cursor page result end
            ∙ (ap (λ l. some l)
                (sym (append-nil page.items)
                  ∙ ap (λ c. page.items ++ keep allowed (left_over later c table)) (sym end)
                  ∙ sym is_page.complete))
        | inr (c, front, next, named, split, shorter) ↦
            (let behind = after later (some c) table in
              let listing' : IsListing later query judge Good allowed table front behind = record {
                ordered = listing.ordered;
                split = split;
                queried = listing.queried;
                judged = listing.judged;
              } in
              let resumed : after later (applied (some c)) table ≡ behind = rw named refl in
              let rest =
                walk-from n front behind (some c) memo listing' some_limit good resumed
                  (omega arith) in
              walk_on (fill_page query judge limit memo) n cursor page c _ result next rest
              ∙ (ap (λ l. some l)
                  (ap (λ o. page.items ++ keep allowed (left_over later o table)) (sym next)
                    ∙ sym is_page.complete)))
      ]

  -- With a positive limit, on a table in the order of the ids, where the query takes the first rows
  -- behind its cursor and the decisions about rows of the table do not fail and depend on the row
  -- alone, from a memo that is good for them: the requests of a client that starts without a cursor
  -- and follows the next cursor of each page come to an end, after at most one more than the table
  -- has rows, and their pages in sequence are exactly the allowed rows of the table.
  pub walk_complete :
      (memo : M)
      → IsListing later query judge Good allowed table [] table
      → 0 < limit
      → Good memo
      → walk (fill_page query judge limit memo) (suc (length table)) none
        ≡ some (keep allowed table)
  walk_complete memo listing some_limit good =
      walk-from (suc (length table)) [] table none memo listing some_limit good refl (omega arith)
