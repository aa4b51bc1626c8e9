-- ===== src/Store/Yields.antt =====
-- What the statements and functions of the database may leave behind: for each, the states that it can
-- end in, with the tests that it has passed.
pub mod Updates
use stackai_authz_service.Prelude.{
  String, ◌≡◌, refl, Bool, true, false, ◌&&◌, ◌||◌, not, Option, none, some, List, [], ◌∷◌, ◌++◌,
  map, any, find, keep, mem_text, if◌then◌else◌, ◌==◌, ◌⊎◌, inl, inr, Bool-cases, Option-cases,
}
use stackai_authz_service.Provider.{TeamRow}
use stackai_authz_service.Store.{
  RoleRow, OrgMembership, TeamMembership, Store, Outcome, done, api_error, and_then, role_has,
}
use stackai_authz_service.Store.Triggers.{
  is_org_membership, is_team_membership, set_team_role, check_org_membership_role,
  check_team_membership_role, insert_team_membership, insert_org_membership, join_default_team,
  team_creator_is_admin, insert_team, find_builtin, is_default_of,
}
use stackai_authz_service.Store.Functions.{
  none_remains, none_remains_in_team, team_in_org, is_default_team, remove_org_member, set_org_role,
  update_org_role, change_org_role, remove_team_member, update_team_role, change_team_role,
  erase_team, delete_team,
}

-- The predicate holds of the state that a statement ends in, if it does not fail.
abbrev pub Yields : (Store → Type 0) → Outcome Store → Type 0
Yields P (done t) = P t
Yields P (api_error code message) = Unit

Outcome-cases :
    (o : Outcome (Unit {0}))
    → (o ≡ done tt) ⊎ ((code : String) × (message : String) × (o ≡ api_error code message))
Outcome-cases (done tt) = inl refl
Outcome-cases (api_error code message) = inr (code, message, refl)

pub if-Yields :
    (P : Store → Type 0) (b : Bool) (x y : Outcome Store)
    → (b ≡ true → Yields P x)
    → (b ≡ false → Yields P y)
    → Yields P (if b then x else y)
if-Yields P true x y h k = h refl
if-Yields P false x y h k = k refl

pub check-Yields :
    (P : Store → Type 0) (o : Outcome (Unit {0})) (x : Outcome Store)
    → (o ≡ done tt → Yields P x)
    → Yields P (and_then o (λ u. x))
check-Yields P o x h = elim (Outcome-cases o) [
  | inl passed ↦ rw passed (h passed)
  | inr (code, message, failed) ↦ rw failed tt
]

-- The states after the insertions and updates.
abbrev pub with_team_membership : TeamMembership → Store → Store
with_team_membership m s = record s { team_memberships = s.team_memberships ++ (m ∷ []) }

abbrev pub with_org_membership : OrgMembership → Store → Store
with_org_membership m s = record s { org_memberships = s.org_memberships ++ (m ∷ []) }

abbrev pub with_team : TeamRow → Store → Store
with_team t s = record s { teams = s.teams ++ (t ∷ []) }

abbrev pub with_org_role : String → String → String → Store → Store
with_org_role org_id user_id role_id s = record s {
  org_memberships = map (set_org_role org_id user_id role_id) s.org_memberships;
}

abbrev pub with_team_role : String → String → String → Store → Store
with_team_role team_id user_id role_id s = record s {
  team_memberships = map (set_team_role team_id user_id role_id) s.team_memberships;
}

module _ (P : Store → Type 0) where
  pub insert_team_membership-Yields :
      (on_conflict : Outcome Store) (m : TeamMembership) (s : Store)
      → (any (is_team_membership m.team_id m.user_id) s.team_memberships ≡ true
          → Yields P on_conflict)
      → (check_team_membership_role s m ≡ done tt
          → any (is_team_membership m.team_id m.user_id) s.team_memberships ≡ false
          → P (with_team_membership m s))
      → Yields P (insert_team_membership on_conflict m s)
  unfolding insert_team_membership
  insert_team_membership-Yields on_conflict m s h k =
      check-Yields P (check_team_membership_role s m) _ (λ fits.
        if-Yields P (any (is_team_membership m.team_id m.user_id) s.team_memberships) _ _
          (λ there. h there)
          (λ absent.
            if-Yields P (mem_text m.user_id s.profiles) _ _ (λ known. k fits absent) (λ lost. tt)))

  pub join_default_team-Yields :
      (m : OrgMembership) (s : Store)
      → (find (is_default_of m.org_id) s.teams ≡ none → P s)
      → ((t : TeamRow)
          → find (is_default_of m.org_id) s.teams ≡ some t
          → any (is_team_membership t.id m.user_id) s.team_memberships ≡ true
          → P s)
      → ((t : TeamRow) (role_id : String)
          → find (is_default_of m.org_id) s.teams ≡ some t
          → check_team_membership_role s
              (record { team_id = t.id; user_id = m.user_id; role_id = role_id })
            ≡ done tt
          → P (
              with_team_membership
                (record { team_id = t.id; user_id = m.user_id; role_id = role_id })
                s))
      → Yields P (join_default_team m s)
  unfolding join_default_team
  join_default_team-Yields m s none_there member k =
      elim (Option-cases (find (is_default_of m.org_id) s.teams)) [
        | inl e ↦ rw (e, join_default_team) (none_there e)
        | inr (t, e) ↦ elim (Option-cases (find_builtin "viewer" "team" s.roles)) [
          | inl f ↦ rw (e, f, join_default_team) tt
          | inr (r, f) ↦
              rw (e, f, join_default_team)
                (insert_team_membership-Yields (done s)
                  (record { team_id = t.id; user_id = m.user_id; role_id = r.id }) s
                  (λ there. member t e there) (λ fits absent. k t r.id e fits))
        ]
      ]

  pub insert_org_membership-Yields :
      (m : OrgMembership) (s : Store)
      → (check_org_membership_role s m ≡ done tt
          → any (is_org_membership m.org_id m.user_id) s.org_memberships ≡ false
          → Yields P (join_default_team m (with_org_membership m s)))
      → Yields P (insert_org_membership m s)
  unfolding insert_org_membership
  insert_org_membership-Yields m s k = check-Yields P (check_org_membership_role s m) _ (λ fits.
      if-Yields P (any (is_org_membership m.org_id m.user_id) s.org_memberships) _ _ (λ there. tt)
        (λ absent.
          if-Yields P (mem_text m.org_id s.organizations && mem_text m.user_id s.profiles) _ _
            (λ known. k fits absent) (λ lost. tt)))

  pub insert_team-Yields :
      (t : TeamRow) (created_by : String) (s : Store)
      → (any
              (λ (u : TeamRow). u.id == t.id || ((u.org_id == t.org_id) && (u.name == t.name)))
              s.teams
            ≡ false
          → (role_id : String)
          → check_team_membership_role
              (with_team t s)
              (record { team_id = t.id; user_id = created_by; role_id = role_id })
            ≡ done tt
          → P (
              with_team_membership
                (record { team_id = t.id; user_id = created_by; role_id = role_id })
                (with_team t s)))
      → (any
              (λ (u : TeamRow). u.id == t.id || ((u.org_id == t.org_id) && (u.name == t.name)))
              s.teams
            ≡ false
          → (role_id : String) → P (with_team_role t.id created_by role_id (with_team t s)))
      → Yields P (insert_team t created_by s)
  unfolding insert_team team_creator_is_admin
  insert_team-Yields t created_by s k again =
      if-Yields P
        (any (λ (u : TeamRow). u.id == t.id || ((u.org_id == t.org_id) && (u.name == t.name)))
          s.teams)
        _ _ (λ clash. tt)
        (λ new.
          if-Yields P (mem_text t.org_id s.organizations && mem_text created_by s.profiles) _ _
            (λ known. elim (Option-cases (find_builtin "admin" "team" s.roles)) [
              | inl f ↦ rw (f, team_creator_is_admin) tt
              | inr (r, f) ↦
                  rw (f, team_creator_is_admin)
                    (insert_team_membership-Yields
                      (done (with_team_role t.id created_by r.id (with_team t s)))
                      (record { team_id = t.id; user_id = created_by; role_id = r.id })
                      (with_team t s) (λ there. again new r.id) (λ fits absent. k new r.id fits))
            ])
            (λ lost. tt))
