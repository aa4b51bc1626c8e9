-- ===== src/Service/Joined.antt =====
-- The members of an organization and its default team, through the requests.
use stackai_authz_service.Prelude.{
  String, ◌≡◌, refl, ◌∙◌, subst, Bool, true, ◌&&◌, not, Option, none, some, List, [], ◌∷◌, ◌++◌,
  map, keep, any, any-append, any-keep, any-map, AreDistinct, keep-AreDistinct, append-AreDistinct,
  any_none, All, All-append, All-imp, All-keep, All-map, ◌==◌, arith, eq_iff, Bool-cases, inl, inr,
}
use stackai_authz_service.Cedar.{Cedar, Policy}
use stackai_authz_service.Principal.{Principal}
use stackai_authz_service.ApiKeys.{Hasher}
use stackai_authz_service.Provider.{TeamRow}
use stackai_authz_service.Store.{OrgMembership, TeamMembership, Store}
use stackai_authz_service.Store.Triggers.{set_team_role, is_org_membership, is_team_membership}
use stackai_authz_service.Store.Functions.{set_org_role, team_in_org, erase_team}
use stackai_authz_service.Store.Defaults.{
  id_of, default_of, team_in_org-default, default_of-keep, default_of-append, default_of-apart,
}
use stackai_authz_service.Store.Yields.{with_org_membership, join_default_team-Yields}
use stackai_authz_service.Service.{Request, serve_all}
use stackai_authz_service.Service.Preserved.{IsPreserved}
use stackai_authz_service.Service.Preserved.Requests.{serve_all-kept}

abbrev pub is_in : Option TeamRow → String → List TeamMembership → Bool
is_in none user_id ms = true
is_in (some t) user_id ms = any (is_team_membership t.id user_id) ms

-- Whether the member of an organization is in its default team, where it has one.
abbrev pub has_joined : List TeamRow → List TeamMembership → OrgMembership → Bool
has_joined teams ms m = is_in (default_of m.org_id teams) m.user_id ms

-- The teams have distinct ids, and every member has joined.
unfoldable pub AreJoined : Store → Type 0
AreJoined s =
    AreDistinct id_of s.teams
    × All (λ m. has_joined s.teams s.team_memberships m ≡ true) s.org_memberships

is_in-append :
    (o : Option TeamRow) (user_id : String) (ms : List TeamMembership) (m : TeamMembership)
    → is_in o user_id ms ≡ true
    → is_in o user_id (ms ++ (m ∷ [])) ≡ true
is_in-append none user_id ms m h = refl
is_in-append (some t) user_id ms m h =
    any-append (is_team_membership t.id user_id) ms (m ∷ []) ∙ ground arith

is_in-map :
    (o : Option TeamRow) (user_id team_id other role_id : String) (ms : List TeamMembership)
    → is_in o user_id ms ≡ true
    → is_in o user_id (map (set_team_role team_id other role_id) ms) ≡ true
is_in-map none user_id team_id other role_id ms h = refl
is_in-map (some t) user_id team_id other role_id ms h =
    any-map (set_team_role team_id other role_id) (is_team_membership t.id user_id)
      (is_team_membership t.id user_id) ms (λ m k. ground arith) h

-- What a change of the team memberships keeps, where it spares those of the default teams.
is_in-keep :
    (o : Option TeamRow) (user_id : String) (q : TeamMembership → Bool) (ms : List TeamMembership)
    → ((t : TeamRow)
        → o ≡ some t
        → (m : TeamMembership) → is_team_membership t.id user_id m ≡ true
        → q m ≡ true)
    → is_in o user_id ms ≡ true
    → is_in o user_id (keep q ms) ≡ true
is_in-keep none user_id q ms h e = refl
is_in-keep (some t) user_id q ms h e =
    any-keep (is_team_membership t.id user_id) q (is_team_membership t.id user_id) ms
      (λ m k. let spared = h t refl m k in ground arith) e

has_joined-set_org_role :
    (teams : List TeamRow) (ms : List TeamMembership) (org_id user_id role_id : String)
    (m : OrgMembership)
    → has_joined teams ms (set_org_role org_id user_id role_id m) ≡ has_joined teams ms m
has_joined-set_org_role teams ms org_id user_id role_id m =
    elim (Bool-cases (is_org_membership org_id user_id m)) [ inl e ↦ rw e refl | inr e ↦ rw e refl ]

-- A removal from one organization spares the default teams of the memberships that stay.
spared :
    (teams : List TeamRow) (org_id user_id : String) (m : OrgMembership) (t : TeamRow)
    (x : TeamMembership)
    → AreDistinct id_of teams
    → not (is_org_membership org_id user_id m) ≡ true
    → default_of m.org_id teams ≡ some t
    → is_team_membership t.id m.user_id x ≡ true
    → not ((x.user_id == user_id) && team_in_org teams org_id x.team_id) ≡ true
spared teams org_id user_id m t x distinct stays e hit =
    elim (Bool-cases (team_in_org teams org_id x.team_id)) [
      | inr outside ↦ ground arith
      | inl within ↦
          (let at_t : team_in_org teams org_id t.id ≡ true =
              subst (λ i. team_in_org teams org_id i ≡ true)
                ((eq_iff x.team_id t.id).0 (ground arith)) within in
            let same = team_in_org-default m.org_id org_id teams t distinct e at_t in
            ground (
              arith,
              eq_iff m.org_id org_id,
              eq_iff m.user_id user_id,
              eq_iff x.user_id user_id,
              eq_iff x.user_id m.user_id,
            ))
    ]

AreJoined-IsPreserved : IsPreserved AreJoined
unfolding AreJoined erase_team
AreJoined-IsPreserved = record {
  org_insert = λ m s h fits absent.
      join_default_team-Yields AreJoined m (with_org_membership m s)
        (λ e. (
          h.0,
          All-append (λ m. has_joined s.teams s.team_memberships m ≡ true) s.org_memberships
              (m ∷ []) h.1 (rw e refl, tt),
        ))
        (λ t e there. (
          h.0,
          All-append (λ m. has_joined s.teams s.team_memberships m ≡ true) s.org_memberships
              (m ∷ []) h.1 (rw e there, tt),
        ))
        (λ t role_id e fits.
          let new : TeamMembership = record {
            team_id = t.id;
            user_id = m.user_id;
            role_id = role_id;
          } in
          (
            h.0,
            All-append (λ m. has_joined s.teams (s.team_memberships ++ (new ∷ [])) m ≡ true)
                s.org_memberships (m ∷ [])
                (All-imp _ _ s.org_memberships
                  (λ m k.
                    is_in-append (default_of m.org_id s.teams) m.user_id s.team_memberships new k)
                  h.1)
                (
                  rw e (
                      any-append (is_team_membership t.id m.user_id) s.team_memberships (new ∷ [])
                      ∙ ground (arith, eq_iff t.id t.id, eq_iff m.user_id m.user_id)),
                  tt,
                ),
          ));
  org_remove = λ other user_id s h more. (
    h.0,
    All-keep _ _ _ s.org_memberships
        (λ m stays k.
          is_in-keep (default_of m.org_id s.teams) m.user_id _ s.team_memberships
            (λ t e x hit. spared s.teams other user_id m t x h.0 stays e hit) k)
        h.1,
  );
  org_role = λ other user_id role_id s h more fits. (
    h.0,
    All-map _ _ (set_org_role other user_id role_id) s.org_memberships
        (λ m k. has_joined-set_org_role s.teams s.team_memberships other user_id role_id m ∙ k) h.1,
  );
  team_insert = λ t created_by role_id s h plain new fits. (
    append-AreDistinct id_of s.teams t h.0
        (any_none (λ (u : TeamRow). u.id == t.id) _ s.teams (λ u same. ground arith) new),
    All-imp _ _ s.org_memberships
        (λ m k.
          rw (default_of-append m.org_id s.teams t plain)
            (is_in-append (default_of m.org_id s.teams) m.user_id s.team_memberships _ k))
        h.1,
  );
  team_update = λ t created_by role_id s h plain new. (
    append-AreDistinct id_of s.teams t h.0
        (any_none (λ (u : TeamRow). u.id == t.id) _ s.teams (λ u same. ground arith) new),
    All-imp _ _ s.org_memberships
        (λ m k. rw (default_of-append m.org_id s.teams t plain) (
          is_in-map (default_of m.org_id s.teams) m.user_id t.id created_by role_id
            s.team_memberships k))
        h.1,
  );
  team_member_insert = λ m s h fits absent. (
    h.0,
    All-imp _ _ s.org_memberships
        (λ o k. is_in-append (default_of o.org_id s.teams) o.user_id s.team_memberships m k) h.1,
  );
  team_member_remove = λ team_id user_id s h other. (
    h.0,
    All-imp _ _ s.org_memberships
        (λ m k.
          is_in-keep (default_of m.org_id s.teams) m.user_id _ s.team_memberships
            (λ t e x hit.
              let apart = default_of-apart s m.org_id team_id t h.0 other e in
              ground (arith, eq_iff x.team_id t.id, eq_iff x.team_id team_id, eq_iff t.id team_id))
            k)
        h.1,
  );
  team_role = λ team_id user_id role_id s h fits. (
    h.0,
    All-imp _ _ s.org_memberships
        (λ o k.
          is_in-map (default_of o.org_id s.teams) o.user_id team_id user_id role_id
            s.team_memberships k)
        h.1,
  );
  team_delete = λ team_id s h other. (
    keep-AreDistinct id_of _ s.teams h.0,
    All-imp _ _ s.org_memberships
        (λ m k.
          rw
            (default_of-keep m.org_id (λ (t : TeamRow). not (t.id == team_id)) s.teams
              (λ t e.
                let apart = default_of-apart s m.org_id team_id t h.0 other e in ground arith))
            (is_in-keep (default_of m.org_id s.teams) m.user_id _ s.team_memberships
              (λ t e x hit.
                let apart = default_of-apart s m.org_id team_id t h.0 other e in
                ground
                  (arith, eq_iff x.team_id t.id, eq_iff x.team_id team_id, eq_iff t.id team_id))
              k))
        h.1,
  );
  role_insert = λ id o name scope capabilities s h known new. h;
  workflow_change = λ workflows exports s h. h;
  key_change = λ keys s h. h;
}

-- Where the teams have distinct ids and every member of an organization is in its default team, both
-- stay so after every sequence of requests: a member joins it, never leaves it alone, and it is not
-- deleted.
pub serve_all-AreJoined :
    (is_authorized : Cedar) (policies : List Policy) (hasher : Hasher) (is_uuid : String → Bool)
    (qs : List (Principal × String × Request)) (s : Store)
    → AreJoined s
    → AreJoined (serve_all is_authorized policies hasher is_uuid qs s)
serve_all-AreJoined = serve_all-kept AreJoined AreJoined-IsPreserved
