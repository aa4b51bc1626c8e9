-- ===== src/Tests/Listing.antt =====
-- The pages of a table of two rows, one row to a page.
use stackai_authz_service.Prelude.{
  ℕ, String, Bool, true, ◌≡◌, refl, Option, none, some, List, [], ◌∷◌, ◌&&◌, take, keep, ◌==◌,
  arith,
}
use stackai_authz_service.Provider.{WorkflowRow}
use stackai_authz_service.Errors.{Result, ok}
use stackai_authz_service.Workflows.{WorkflowPage, fill_page}
use stackai_authz_service.Workflows.Pages.{IsOrdered, after}
use stackai_authz_service.Workflows.Scans.{IsListing}
use stackai_authz_service.Workflows.Complete.{IsPage, fill_page-IsPage}
use stackai_authz_service.Workflows.Walk.{walk, walk_complete}
use stackai_authz_service.Tests.{workflow_row}

abbrev second_row : WorkflowRow
second_row = record workflow_row { id = "w2" }

abbrev table : List WorkflowRow
table = workflow_row ∷ second_row ∷ []

abbrev later : String → String → Bool
later a b = a == "w1" && b == "w2"

abbrev query : Option String → ℕ → List WorkflowRow
query c n = take n (after later c table)

abbrev judge : Unit {0} → List WorkflowRow → Result (List WorkflowRow × Unit {0})
judge m rows = ok (keep (λ row. true) rows, m)

listing : IsListing later query judge (λ m. Unit {0}) (λ row. true) table [] table
unfolding IsOrdered
listing = record {
  ordered = (refl, ((refl, refl), tt), refl, (refl, tt, refl, tt));
  split = refl;
  queried = λ c n. refl;
  judged = λ m front rows back good e. (m, refl, tt);
}

fill_page-IsPage_example :
    (page : WorkflowPage) × (fill_page query judge 1 tt none ≡ ok page)
    × IsPage later query judge (λ m. Unit {0}) (λ row. true) table [] table listing 1 page
fill_page-IsPage_example =
    fill_page-IsPage later query judge (λ m. Unit {0}) (λ row. true) table [] table listing 1 none
      tt (omega arith) tt refl

walk_complete_example : walk (fill_page query judge 1 tt) 3 none ≡ some table
walk_complete_example =
    walk_complete later query judge (λ m. Unit {0}) (λ row. true) table 1 tt listing (omega arith)
      tt
