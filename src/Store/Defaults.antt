-- ===== src/Store/Defaults.antt =====
-- The default team of an organization, by its flag and by its id.
use stackai_authz_service.Prelude.{
  String, ◌≡◌, refl, sym, subst, Bool, true, false, ◌&&◌, Option, some, List, [], ◌∷◌, ◌++◌, keep,
  find, find_holds, some_inj, any_none, AreDistinct, find-AreDistinct, apart, ◌==◌, arith, eq_iff,
  Bool-cases, inl, inr,
}
use stackai_authz_service.Provider.{TeamRow}
use stackai_authz_service.Store.{Store, find_team}
use stackai_authz_service.Store.Triggers.{is_default_of}
use stackai_authz_service.Store.Functions.{is_default_team, team_in_org}

-- The id is the key of `teams`.
abbrev pub id_of : TeamRow → String
id_of t = t.id

abbrev pub default_of : String → List TeamRow → Option TeamRow
default_of org_id teams = find (is_default_of org_id) teams

-- With distinct ids, a team that is found by its flag is the one that has its id.
pub find_team-default :
    (org_id : String) (ts : List TeamRow) (t : TeamRow)
    → AreDistinct id_of ts
    → default_of org_id ts ≡ some t
    → find_team t.id ts ≡ some t
unfolding find_team
find_team-default org_id ts t h e = find-AreDistinct id_of (is_default_of org_id) ts t h e

pub team_in_org-default :
    (org_id other : String) (ts : List TeamRow) (t : TeamRow)
    → AreDistinct id_of ts
    → default_of org_id ts ≡ some t
    → team_in_org ts other t.id ≡ true
    → other ≡ org_id
unfolding team_in_org
team_in_org-default org_id other [] t h e k = absurd (ground arith)
team_in_org-default org_id other (u ∷ ts) t (new, h) e k =
    elim (Bool-cases (is_default_of org_id u)) [
      | inl here ↦
          (let same : u ≡ t = some_inj u t (rw here at e) in
            let lone =
              any_none (λ (x : TeamRow). (x.id == u.id) && (x.org_id == other))
                (λ (x : TeamRow). x.id == u.id) ts (λ x f. ground arith) new in
            let at_u : team_in_org (u ∷ ts) other u.id ≡ true =
              subst (λ (x : TeamRow). team_in_org (u ∷ ts) other x.id ≡ true) (sym same) k in
            ground (arith, eq_iff u.org_id other, eq_iff u.org_id org_id))
      | inr there ↦
          (let found : default_of org_id ts ≡ some t = rw there at e in
            let other_id : (u.id == t.id) ≡ false =
              apart id_of (is_default_of org_id) u t ts new found in
            team_in_org-default org_id other ts t h found (ground arith))
    ]

-- The default team of an organization is found after other teams have gone.
pub default_of-keep :
    (org_id : String) (q : TeamRow → Bool) (ts : List TeamRow)
    → ((t : TeamRow) → default_of org_id ts ≡ some t → q t ≡ true)
    → default_of org_id (keep q ts) ≡ default_of org_id ts
default_of-keep org_id q [] h = refl
default_of-keep org_id q (t ∷ ts) h = elim (Bool-cases (is_default_of org_id t)) [
  | inl here ↦ (let stays = h t (rw here refl) in rw (stays, here) refl)
  | inr there ↦ (let rest = default_of-keep org_id q ts (λ u e. h u (rw there e)) in ground arith)
]

pub default_of-append :
    (org_id : String) (ts : List TeamRow) (t : TeamRow)
    → t.is_default ≡ false
    → default_of org_id (ts ++ (t ∷ [])) ≡ default_of org_id ts
default_of-append org_id [] t h = ground arith
default_of-append org_id (u ∷ ts) t h = ground (arith, default_of-append org_id ts t h)

-- A default team has not the id of a team that is not a default one.
pub default_of-apart :
    (s : Store) (org_id team_id : String) (t : TeamRow)
    → AreDistinct id_of s.teams
    → is_default_team s team_id ≡ false
    → default_of org_id s.teams ≡ some t
    → (t.id == team_id) ≡ false
unfolding is_default_team
default_of-apart s org_id team_id t h other e = elim (Bool-cases (t.id == team_id)) [
  | inr apart ↦ apart
  | inl same ↦
      (let found : find_team team_id s.teams ≡ some t =
          subst (λ i. find_team i s.teams ≡ some t) ((eq_iff t.id team_id).0 same)
            (find_team-default org_id s.teams t h e) in
        let plain : t.is_default ≡ false = rw (found, is_default_team) at other in
        let flagged = find_holds (is_default_of org_id) s.teams t e in absurd (ground arith))
]
