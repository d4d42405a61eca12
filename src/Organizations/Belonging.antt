-- ===== src/Organizations/Belonging.antt =====
-- That ListUserOrganizations of internal/service/organization/impl.go lists organizations of the user.
use go_mpc_vault.Prelude.{
  String, Bool, true, ◌&&◌, ◌||◌, ◌==◌, List, [], ◌∷◌, ◌++◌, ◌≡◌, inl, inr, refl, arith, any, map,
  rows_where, All, eq_refl,
}
use go_mpc_vault.Prelude.Tables.{All-mono, All-if}
use go_mpc_vault.Errors.{Result, ok, Result-cases}
use go_mpc_vault.Data.{Database}
use go_mpc_vault.Data.VaultTables.{Organization, OrganizationMember}
use go_mpc_vault.Exec.{Env, World, next, pure, lift, map_error, select, ◌>>=◌}
use go_mpc_vault.Organizations.{is_membership, member_organizations, list_user_organizations}

-- The user owns the organization, or is a member of it.
abbrev pub owns : String → String → Organization → Bool
owns uid oid o = o.id == oid && o.owner_id == uid

abbrev pub belongs : String → String → Database → Bool
belongs oid uid db =
    any (owns uid oid) db.custody.organizations || any (is_membership oid uid) db.custody.members

owned_rows :
    (uid : String) (xs : List Organization)
    → All (λ o. any (owns uid o.id) xs ≡ true) (rows_where (λ o. o.owner_id == uid) xs)
owned_rows uid [] = tt
owned_rows uid (x ∷ xs) =
    All-if (λ o. any (owns uid o.id) (x ∷ xs) ≡ true) (x.owner_id == uid) x
      (rows_where (λ o. o.owner_id == uid) xs) (λ e. ground (arith, eq_refl x.id))
      (All-mono (λ o. any (owns uid o.id) xs ≡ true) (λ o. any (owns uid o.id) (x ∷ xs) ≡ true)
        (rows_where (λ o. o.owner_id == uid) xs) (λ o h. ground arith) (owned_rows uid xs))

memberships_any :
    (uid oid : String) (xs : List OrganizationMember)
    → any (λ k. k == oid) (map (λ m. m.organization_id) (rows_where (λ m. m.user_id == uid) xs))
      ≡ true
    → any (is_membership oid uid) xs ≡ true
memberships_any uid oid [] h = h
memberships_any uid oid (x ∷ xs) h = ground (arith, memberships_any uid oid xs)

module _ (p : String → Bool) where
  -- Every organization has an identifier that is accepted.
  abbrev pub Accepted : List Organization → Type 0
  Accepted orgs = All (λ o. p o.id ≡ true) orgs

  Accepted-append : (xs ys : List Organization) → Accepted xs → Accepted ys → Accepted (xs ++ ys)
  Accepted-append [] ys h k = k
  Accepted-append (x ∷ xs) ys h k = (h.0, Accepted-append xs ys h.1 k)

module _ (env : Env) (where_in : List String → Database → Result (List Organization))
    -- An IN clause gives rows with one of the identifiers.
    (answers : (oids : List String) (db : Database) (orgs : List Organization)
      → where_in oids db ≡ ok orgs
      → All (λ o. any (λ k. k == o.id) oids ≡ true) orgs) where
  member_organizations_ok :
      (uid : String) (oids : List String) (db : Database) (w : World) (orgs : List Organization)
      → w.base ≡ db
      → ((oid : String)
          → any (λ k. k == oid) oids ≡ true
          → any (is_membership oid uid) db.custody.members ≡ true)
      → (member_organizations env where_in oids w).0 ≡ ok orgs
      → All (λ o. any (is_membership o.id uid) db.custody.members ≡ true) orgs
  unfolding member_organizations map_error select lift pure ◌>>=◌
  member_organizations_ok uid [] db w [] same member h = tt
  member_organizations_ok uid [] db w (o ∷ orgs) same member h = absurd (ground arith)
  member_organizations_ok uid (oid ∷ oids) db w orgs same member h =
      elim (Result-cases (where_in (oid ∷ oids) db)) [
        | inl (found, e) ↦
            All-mono (λ o. any (λ k. k == o.id) (oid ∷ oids) ≡ true)
              (λ o. any (is_membership o.id uid) db.custody.members ≡ true) orgs (λ o. member o.id)
              (answers (oid ∷ oids) db orgs (ground arith))
        | inr (x, e) ↦ absurd (ground arith)
      ]

  pub list_user_organizations_ok :
      (uid : String) (w : World) (orgs : List Organization)
      → (list_user_organizations env where_in uid w).0 ≡ ok orgs
      → Accepted (λ oid. belongs oid uid w.base) orgs
  unfolding list_user_organizations map_error select pure ◌>>=◌
  list_user_organizations_ok uid w orgs h =
      let owned = rows_where (λ o. o.owner_id == uid) w.base.custody.organizations in
      let oids =
        map (λ m. m.organization_id) (rows_where (λ m. m.user_id == uid) w.base.custody.members) in
      elim (Result-cases (member_organizations env where_in oids (next (next w))).0) [
        | inr (x, e) ↦ absurd (ground arith)
        | inl (joined, e) ↦
            let split : orgs ≡ owned ++ joined = ground arith in
            rw split (
              Accepted-append (λ oid. belongs oid uid w.base) owned joined
                (All-mono (λ o. any (owns uid o.id) w.base.custody.organizations ≡ true)
                  (λ o. belongs o.id uid w.base ≡ true) owned (λ o k. ground arith)
                  (owned_rows uid w.base.custody.organizations))
                (All-mono (λ o. any (is_membership o.id uid) w.base.custody.members ≡ true)
                  (λ o. belongs o.id uid w.base ≡ true) joined (λ o k. ground arith)
                  (member_organizations_ok uid oids w.base (next (next w)) joined refl
                    (λ oid. memberships_any uid oid w.base.custody.members) e)))
      ]
