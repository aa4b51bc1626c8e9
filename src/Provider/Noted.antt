-- ===== src/Provider/Noted.antt =====
-- The memo of `capability_slice` in src/app/infra/entity_provider.py.
use stackai_authz_service.Prelude.{
  String, ◌≡◌, refl, sym, ◌∙◌, ap, Option, some, [], ◌∷◌, lookup, arith, Bool-cases, inl, inr,
  eq_iff, >>=-eq-some, ◌>>=◌,
}
use stackai_authz_service.Provider.{
  CapabilitySlice, Database, Memo, collect, capability_slice, empty_slice,
}

pair_inj :
    (a b : CapabilitySlice) (m n : Memo)
    → ◌≡◌ {A = Option (CapabilitySlice × Memo)} (some (a, m)) (some (b, n))
    → (a ≡ b) × (m ≡ n)
pair_inj a b m n h = (cc, cc)

lookup-noted :
    (a b : CapabilitySlice) (id : String) (m : Memo)
    → ◌≡◌ {A = Option (CapabilitySlice × Memo)} (some (a, (id, a) ∷ [])) (some (b, m))
    → lookup id m ≡ some b
lookup-noted a b id m h =
    let (same, noted) = pair_inj a b ((id, a) ∷ []) m h in
    let here : lookup id ((id, a) ∷ []) ≡ some a = ground (arith, eq_iff id id) in
    ap (lookup id) (sym noted) ∙ here ∙ ap (λ c. some c) same

-- The memo of a first read has what was read.
pub capability_slice-noted :
    (db : Database) (id : String) (caps : CapabilitySlice) (memo : Memo)
    → capability_slice db [] id ≡ some (caps, memo)
    → lookup id memo ≡ some caps
unfolding capability_slice
capability_slice-noted db id caps memo h = elim (Bool-cases (db.is_uuid id)) [
  | inr other ↦ lookup-noted empty_slice caps id memo (ground arith)
  | inl uuid ↦
      (let both : (do
        team_caps ← collect (db.team_memberships id) []
        org_caps ← collect (db.org_memberships id) []
        let result : CapabilitySlice = record { team_caps = team_caps; org_caps = org_caps }
        some (result, (id, result) ∷ []))
            ≡ some (caps, memo) =
          ground arith in
        let (teams, _, one) =
          >>=-eq-some (collect (db.team_memberships id) []) _ (caps, memo) both in
        let (orgs, _, none_left) =
          >>=-eq-some (collect (db.org_memberships id) []) _ (caps, memo) one in
        lookup-noted (record { team_caps = teams; org_caps = orgs }) caps id memo none_left)
]

-- A memo that has the capabilities gives them back and stays as it is.
pub capability_slice-again :
    (db : Database) (id : String) (caps : CapabilitySlice) (memo : Memo)
    → lookup id memo ≡ some caps
    → capability_slice db memo id ≡ some (caps, memo)
unfolding capability_slice
capability_slice-again db id caps memo h = rw (h, capability_slice) refl
