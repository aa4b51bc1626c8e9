-- ===== src/Service/Scopes.antt =====
-- The capabilities that the provider reads off the tables, by the scopes of the user's memberships.
use stackai_authz_service.Prelude.{
  String, ◌≡◌, refl, ◌∙◌, subst, Bool, false, ◌&&◌, some, Option, [], ◌∷◌, map, keep, mem_text,
  >>=-eq-some, ◌==◌, arith, Bool-cases, inl, inr,
}
use stackai_authz_service.Provider.{
  CapabilitySlice, Memo, collect, capability_slice, key_names, empty_slice,
}
use stackai_authz_service.Provider.Keys.{scoped, mem_text-collect}
use stackai_authz_service.Store.{OrgMembership, TeamMembership, Store}
use stackai_authz_service.Store.Queries.{queries, org_row, team_row}

some_pair :
    {A B : Type 0} (a c : A) (b d : B)
    → ◌≡◌ {A = Option (A × B)} (some (a, b)) (some (c, d))
    → a ≡ c
some_pair a c b d h = ground arith

module _ (is_uuid : String → Bool) (t : Store) (user_id : String) where
  abbrev pub in_teams : String → Bool
  in_teams k = scoped k (map (team_row t) (keep (λ m. m.user_id == user_id) t.team_memberships))

  abbrev pub in_orgs : String → Bool
  in_orgs k = scoped k (map (org_row t) (keep (λ m. m.user_id == user_id) t.org_memberships))

  abbrev HasKeys : String → CapabilitySlice → Type 0
  HasKeys k caps =
      (mem_text k (key_names caps.team_caps) ≡ (is_uuid user_id && in_teams k))
      × (mem_text k (key_names caps.org_caps) ≡ (is_uuid user_id && in_orgs k))

  pub capability_slice-keys :
      (caps : CapabilitySlice) (memo : Memo) (k : String)
      → capability_slice (queries is_uuid t) [] user_id ≡ some (caps, memo)
      → HasKeys k caps
  unfolding capability_slice queries
  capability_slice-keys caps memo k h = elim (Bool-cases (is_uuid user_id)) [
    | inr other ↦
        subst (HasKeys k)
          (some_pair empty_slice caps ((user_id, empty_slice) ∷ []) memo (rw other at h))
          (rw other (refl, refl))
    | inl uuid ↦
        (let rows =
            map (team_row t)
              (keep (λ (m : TeamMembership). m.user_id == user_id) t.team_memberships) in
          let rows' =
            map (org_row t)
              (keep (λ (m : OrgMembership). m.user_id == user_id) t.org_memberships) in
          let (teams, e, h') = >>=-eq-some (collect rows []) _ (caps, memo) (rw uuid at h) in
          let (orgs, f, h'') = >>=-eq-some (collect rows' []) _ (caps, memo) h' in
          let made : CapabilitySlice = record { team_caps = teams; org_caps = orgs } in
          subst (HasKeys k) (some_pair made caps ((user_id, made) ∷ []) memo h'')
            (rw uuid (mem_text-collect k rows [] teams e, mem_text-collect k rows' [] orgs f)))
  ]

  pub capability_slice-absent :
      (caps : CapabilitySlice) (memo : Memo) (k : String)
      → capability_slice (queries is_uuid t) [] user_id ≡ some (caps, memo)
      → (in_teams k ≡ false → mem_text k (key_names caps.team_caps) ≡ false)
        × (in_orgs k ≡ false → mem_text k (key_names caps.org_caps) ≡ false)
  capability_slice-absent caps memo k h =
      let (teams, orgs) = capability_slice-keys caps memo k h in
      (λ f. teams ∙ rw f (ground arith), λ f. orgs ∙ rw f (ground arith))
