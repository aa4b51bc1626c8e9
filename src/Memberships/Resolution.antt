-- ===== src/Memberships/Resolution.antt =====
-- The resolution of a role's name, against the trigger that checks the role of a membership.
use stackai_authz_service.Prelude.{
  String, ◌≡◌, refl, sym, ◌∙◌, ap, subst, Bool, true, ◌&&◌, some, List, [], ◌∷◌, keep, find,
  find_holds, find-keep, AreDistinct, find-AreDistinct, arith, Bool-cases, Option-cases, inl, inr,
}
use stackai_authz_service.Errors.{ok, err, crash}
use stackai_authz_service.Store.{RoleRow, Store, done, find_role, find_team}
use stackai_authz_service.Provider.{TeamRow}
use stackai_authz_service.Store.Triggers.{
  role_fits, check_org_membership_role, check_team_membership_role,
}
use stackai_authz_service.Memberships.{is_candidate, is_own, choose, resolve_role_id, team_org_id}

abbrev pub role_key : RoleRow → String
role_key r = r.id

ok_inj : (a b : String) → ok a ≡ ok b → a ≡ b
ok_inj a b h = ground arith

-- The chosen row stands in the table, and it is a candidate.
abbrev Chosen : String → String → String → List RoleRow → String → Type 0
Chosen scope org_id name roles role_id =
    (r : RoleRow) × (r.id ≡ role_id)
    × (find_role role_id roles ≡ some r)
    × (is_candidate scope org_id name r ≡ true)

head_inj : (x y : RoleRow) (xs ys : List RoleRow) → x ∷ xs ≡ y ∷ ys → x ≡ y
head_inj x y xs ys h = ground arith

first_of :
    (q : RoleRow → Bool) (rows : List RoleRow) (r : RoleRow) (rest : List RoleRow)
    → keep q rows ≡ r ∷ rest
    → find q rows ≡ some r
first_of q [] r rest h = absurd (ground arith)
first_of q (x ∷ rows) r rest h = elim (Bool-cases (q x)) [
  | inl here ↦
      (let same : x ≡ r = head_inj x r (keep q rows) rest (rw here at h) in rw here (ap some same))
  | inr there ↦ rw there (first_of q rows r rest (rw there at h))
]

find-Chosen :
    (scope org_id name : String) (p : RoleRow → Bool) (roles : List RoleRow) (r : RoleRow)
    → AreDistinct role_key roles
    → ((x : RoleRow) → p x ≡ true → is_candidate scope org_id name x ≡ true)
    → find p roles ≡ some r
    → Chosen scope org_id name roles r.id
unfolding find_role
find-Chosen scope org_id name p roles r h k e =
    (r, refl, find-AreDistinct role_key p roles r h e, k r (find_holds p roles r e))

choose-Chosen :
    (scope org_id name role_id : String) (roles rows : List RoleRow)
    → AreDistinct role_key roles
    → keep (is_candidate scope org_id name) roles ≡ rows
    → choose org_id name rows ≡ ok role_id
    → Chosen scope org_id name roles role_id
choose-Chosen scope org_id name role_id roles [] h same e = absurd (ground arith)
choose-Chosen scope org_id name role_id roles (r ∷ rows) h same e =
    elim (Option-cases (find (is_own org_id) (r ∷ rows))) [
      | inl none_own ↦ subst (Chosen scope org_id name roles) (ok_inj _ _ (rw none_own at e)) (
          find-Chosen scope org_id name (is_candidate scope org_id name) roles r h (λ x k. k)
            (first_of (is_candidate scope org_id name) roles r rows same))
      | inr (own, found) ↦ subst (Chosen scope org_id name roles) (ok_inj _ _ (rw found at e)) (
          find-Chosen scope org_id name (λ x. is_candidate scope org_id name x && is_own org_id x)
            roles own h (λ x k. ground arith)
            (sym (find-keep (is_own org_id) (is_candidate scope org_id name) roles)
              ∙ ap (find (is_own org_id)) same
              ∙ found))
    ]

pub team_org_id-ok :
    (s : Store) (team_id org_id : String)
    → team_org_id s team_id ≡ ok org_id
    → (t : TeamRow) × (find_team team_id s.teams ≡ some t) × (t.org_id ≡ org_id)
unfolding team_org_id
team_org_id-ok s team_id org_id h = elim (Option-cases (find_team team_id s.teams)) [
  | inl e ↦ absurd (let lost : err crash ≡ ok org_id = rw (e, team_org_id) at h in ground arith)
  | inr (t, e) ↦ (t, e, ok_inj t.org_id org_id (rw (e, team_org_id) at h))
]

module _ (s : Store) (distinct : AreDistinct role_key s.roles) where
  -- The trigger on a membership never rejects a role that the service has found by its name: neither
  -- in an organization nor in a team, where the ids of the roles are distinct.
  pub check-resolve_role_id :
      (org_id team_id user_id org_name team_name org_role team_role : String)
      → resolve_role_id "org" s org_id org_name ≡ ok org_role
      → team_org_id s team_id ≡ ok org_id
      → resolve_role_id "team" s org_id team_name ≡ ok team_role
      → (check_org_membership_role s
            (record { org_id = org_id; user_id = user_id; role_id = org_role })
          ≡ done tt)
        × (check_team_membership_role s
              (record { team_id = team_id; user_id = user_id; role_id = team_role })
            ≡ done tt)
  unfolding resolve_role_id check_org_membership_role check_team_membership_role team_org_id
  check-resolve_role_id org_id team_id user_id org_name team_name org_role team_role e known f =
      let (r, same, found, fits) =
        choose-Chosen "org" org_id org_name org_role s.roles _ distinct refl e in
      let (u, same', found', fits') =
        choose-Chosen "team" org_id team_name team_role s.roles _ distinct refl f in
      let (t, there, its) = team_org_id-ok s team_id org_id known in
      let fit : role_fits "org" org_id r ≡ true = ground arith in
      let fit' : role_fits "team" t.org_id u ≡ true =
        subst (λ o. role_fits "team" o u ≡ true) (sym its) (ground arith) in
      (
        rw (found, fit, check_org_membership_role) refl,
        rw (found', there, fit', check_team_membership_role) refl,
      )
