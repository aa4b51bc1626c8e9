-- ===== src/Prefilter/Text.antt =====
-- The text of the filter of the list endpoint, as PostgREST reads it.
use stackai_authz_service.Prelude.{
  String, ◌≡◌, refl, ◌∙◌, ap₂, Bool, false, ◌&&◌, ◌||◌, not, List, [], ◌∷◌, ◌++◌, any, map, cat,
  is_empty, lacks, mem_text, sorted, any-sorted, ◌==◌, if◌then◌else◌, Bool-cases, inl, inr, arith,
}
use stackai_authz_service.Engine.{join}
use stackai_authz_service.Prefilter.{PrefilterSpec, matches, to_postgrest_or}
use stackai_authz_service.Store.{StoredWorkflow, Store}
use stackai_authz_service.Store.Queries.{workflow_row}
use stackai_authz_service.Provider.{build_workflow_entity}
use stackai_authz_service.Workflows.Fetch.{entity}

-- A condition of `or`: the column has one of the values.
pub record InClause : Type 0 where
  pub column : String
  pub values : List String

-- The columns of a row of `workflows`.
abbrev column_value : String → StoredWorkflow → String
column_value column w =
    if column == "id"
    then w.id
    else if column == "org_id"
    then w.org_id
    else if column == "team_id"
    then w.team_id
    else w.name

-- The rows that `or=(...)` lets through.
unfoldable pub passes_or : List InClause → StoredWorkflow → Bool
passes_or cs w = any (λ c. mem_text (column_value c.column w) c.values) cs

abbrev in_text : InClause → String
in_text c = cat c.column (cat ".in.(" (cat (join "," c.values) ")"))

-- The text that stands for the conditions.
unfoldable pub or_text : List InClause → String
or_text cs = join "," (map (λ c. in_text c) cs)

-- A value without the characters that PostgREST reserves in a list of values.
abbrev pub is_plain_value : String → Bool
is_plain_value v = lacks b',' v && lacks b'(' v && lacks b')' v && lacks b'"' v

abbrev pub AreReadable : List InClause → Type 0
AreReadable cs = any (λ c. any (λ v. not (is_plain_value v)) c.values) cs ≡ false

abbrev pub AllPlain : List String → Type 0
AllPlain vs = any (λ v. not (is_plain_value v)) vs ≡ false

abbrev in_column : String → List String → List InClause
in_column column ids =
    if is_empty ids then [] else record { column = column; values = sorted ids } ∷ []

-- The conditions that a filter stands for: the teams on the rows' team, the organizations on the rows'
-- organization.
abbrev pub conditions : PrefilterSpec → List InClause
conditions f = in_column "team_id" f.team_ids ++ in_column "org_id" f.org_ids

pub to_postgrest_or-conditions : (f : PrefilterSpec) → or_text (conditions f) ≡ to_postgrest_or f
unfolding or_text to_postgrest_or
to_postgrest_or-conditions f = elim (Bool-cases (is_empty f.team_ids)) [
  | inl t ↦ elim (Bool-cases (is_empty f.org_ids)) [
    | inl o ↦ rw (t, o) refl
    | inr o ↦ rw (t, o) refl
  ]
  | inr t ↦ elim (Bool-cases (is_empty f.org_ids)) [
    | inl o ↦ rw (t, o) refl
    | inr o ↦ rw (t, o) refl
  ]
]

any-in_column :
    (q : InClause → Bool) (column : String) (ids : List String) (rest : List InClause)
    → any q (in_column column ids ++ rest)
      ≡ ((not (is_empty ids) && q (record { column = column; values = sorted ids })) || any q rest)
any-in_column q column [] rest = refl
any-in_column q column (x ∷ ids) rest = refl

any-in_column_last :
    (q : InClause → Bool) (column : String) (ids : List String)
    → any q (in_column column ids)
      ≡ (not (is_empty ids) && q (record { column = column; values = sorted ids }))
any-in_column_last q column [] = refl
any-in_column_last q column (x ∷ ids) = ground arith

any-conditions :
    (q : InClause → Bool) (f : PrefilterSpec)
    → any q (conditions f) ≡ (
        (not (is_empty f.team_ids) && q (record { column = "team_id"; values = sorted f.team_ids }))
        || (not (is_empty f.org_ids)
            && q (record { column = "org_id"; values = sorted f.org_ids })))
any-conditions q f =
    rw (any-in_column q "team_id" f.team_ids (in_column "org_id" f.org_ids))
      (rw (any-in_column_last q "org_id" f.org_ids) refl)

any-sorted_nonempty :
    (q : String → Bool) (ids : List String) → (not (is_empty ids) && any q (sorted ids)) ≡ any q ids
any-sorted_nonempty q [] = refl
any-sorted_nonempty q (x ∷ ids) = any-sorted q (x ∷ ids)

pub conditions-AreReadable :
    (f : PrefilterSpec) → AllPlain f.team_ids → AllPlain f.org_ids → AreReadable (conditions f)
conditions-AreReadable f teams orgs =
    any-conditions (λ c. any (λ v. not (is_plain_value v)) c.values) f
    ∙ ap₂ ◌||◌ (any-sorted_nonempty (λ v. not (is_plain_value v)) f.team_ids ∙ teams)
        (any-sorted_nonempty (λ v. not (is_plain_value v)) f.org_ids ∙ orgs)

-- The rows that the text of a filter lets through are those that the filter matches.
pub passes_or-conditions :
    (f : PrefilterSpec) (s : Store) (w : StoredWorkflow)
    → passes_or (conditions f) w ≡ matches f (entity (workflow_row s w))
unfolding passes_or matches workflow_row build_workflow_entity
passes_or-conditions f s w =
    any-conditions (λ c. mem_text (column_value c.column w) c.values) f
    ∙ ap₂ ◌||◌ (any-sorted_nonempty (λ x. x == w.team_id) f.team_ids)
        (any-sorted_nonempty (λ x. x == w.org_id) f.org_ids)
