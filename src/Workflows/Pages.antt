-- ===== src/Workflows/Pages.antt =====
-- The pages of the list endpoint, against the table of the rows that pass the filter.
use stackai_authz_service.Prelude.{
  String, Bool, true, false, ◌≡◌, refl, Option, none, some, List, [], ◌∷◌, ◌++◌, keep, All, ◌==◌,
  arith,
}
use stackai_authz_service.Provider.{WorkflowRow}

-- A table in the order of its ids, none of them the empty text: `later a b` is `b > a` in the column.
unfoldable pub IsOrdered : (String → String → Bool) → List WorkflowRow → Type 0
IsOrdered later [] = Unit
IsOrdered later (row ∷ rows) =
    ((row.id == "") ≡ false)
    × All
        (λ (other : WorkflowRow). (later row.id other.id ≡ true) × (later other.id row.id ≡ false))
        rows
    × (later row.id row.id ≡ false)
    × IsOrdered later rows

-- The rows behind a cursor, and what a page leaves to the next.
abbrev pub after : (String → String → Bool) → Option String → List WorkflowRow → List WorkflowRow
after later none table = table
after later (some c) table = keep (λ row. later c row.id) table

abbrev pub left_over :
    (String → String → Bool) → Option String → List WorkflowRow → List WorkflowRow
left_over later none table = []
left_over later (some c) table = after later (some c) table

module _ (later : String → String → Bool) where
  keep-later :
      (c : WorkflowRow) (rows : List WorkflowRow)
      → All
          (λ (other : WorkflowRow). (later c.id other.id ≡ true) × (later other.id c.id ≡ false))
          rows
      → keep (λ row. later c.id row.id) rows ≡ rows
  keep-later c [] h = refl
  keep-later c (x ∷ rows) ((h, _), hs) = ground (arith, keep-later c rows hs)

  All-middle :
      (P : WorkflowRow → Type 0) (front : List WorkflowRow) (x : WorkflowRow)
      (back : List WorkflowRow)
      → All P (front ++ (x ∷ back))
      → P x
  All-middle P [] x back (h, hs) = h
  All-middle P (y ∷ front) x back (h, hs) = All-middle P front x back hs

  -- Behind the id of a row stand exactly the rows that follow it.
  pub after_row :
      (front : List WorkflowRow) (x : WorkflowRow) (back : List WorkflowRow)
      → IsOrdered later (front ++ (x ∷ back))
      → (after later (some x.id) (front ++ (x ∷ back)) ≡ back) × ((x.id == "") ≡ false)
  unfolding IsOrdered
  after_row [] x back (named, hs, h, _) = (ground (arith, keep-later x back hs), named)
  after_row (y ∷ front) x back (_, hs, _, ordered) =
      let (_, behind) = All-middle _ front x back hs in
      let (e, named) = after_row front x back ordered in (ground arith, named)
