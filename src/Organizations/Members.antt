-- ===== src/Organizations/Members.antt =====
-- The members of an organization (internal/service/organization/impl.go): what adding, changing and
-- removing one does.
use go_mpc_vault.Prelude.{
  ℕ, suc, String, true, false, Option, none, some, List, [], ◌∷◌, ◌≡◌, refl, arith, any, find,
  delete_where, update_where, Option-cases, inl, inr, eq_iff, eq_refl, map_option, is_some,
}
use go_mpc_vault.Errors.{ok, is_no_rows}
use go_mpc_vault.Data.{Database}
use go_mpc_vault.Data.VaultTables.{OrganizationMember}
use go_mpc_vault.Exec.{Env, World, lift, map_error, attempt, select, write, ◌>>=◌, pure, raise}
use go_mpc_vault.Organizations.{
  has_organization, is_membership, membership, insert_member, delete_member, update_member,
  add_member, find_member, remove_found, remove_member, update_member_role,
}

abbrev pub role_of : String → String → Database → Option String
role_of oid uid db = map_option (λ m. m.role) (membership oid uid db)

find-key :
    (oid uid : String) (rows : List OrganizationMember) (m : OrganizationMember)
    → find (is_membership oid uid) rows ≡ some m
    → (m.organization_id ≡ oid) × (m.user_id ≡ uid)
find-key oid uid [] m h = absurd (ground arith)
find-key oid uid (x ∷ rows) m h =
    ground (arith, find-key oid uid rows m, eq_iff x.organization_id oid, eq_iff x.user_id uid)

find-deleted :
    (oid uid : String) (rows : List OrganizationMember)
    → find (is_membership oid uid) (delete_where (is_membership oid uid) rows) ≡ none
find-deleted oid uid [] = refl
find-deleted oid uid (x ∷ rows) = ground (arith, find-deleted oid uid rows)

delete-unmatched :
    (oid uid : String) (rows : List OrganizationMember)
    → find (is_membership oid uid) rows ≡ none
    → delete_where (is_membership oid uid) rows ≡ rows
delete-unmatched oid uid [] h = refl
delete-unmatched oid uid (x ∷ rows) h = ground (arith, delete-unmatched oid uid rows)

any-find :
    (oid uid : String) (rows : List OrganizationMember)
    → any (is_membership oid uid) rows ≡ false
    → find (is_membership oid uid) rows ≡ none
any-find oid uid [] h = refl
any-find oid uid (x ∷ rows) h = ground (arith, any-find oid uid rows)

find-updated :
    (oid uid role : String) (rows : List OrganizationMember)
    → find
        (is_membership oid uid)
        (update_where (is_membership oid uid) (λ x. record x { role = role }) rows)
      ≡ map_option
          (λ (x : OrganizationMember). record x { role = role })
          (find (is_membership oid uid) rows)
find-updated oid uid role [] = refl
find-updated oid uid role (x ∷ rows) = ground (arith, find-updated oid uid role rows)

others-updated :
    (oid uid role : String) (rows : List OrganizationMember)
    → delete_where
        (is_membership oid uid)
        (update_where (is_membership oid uid) (λ x. record x { role = role }) rows)
      ≡ delete_where (is_membership oid uid) rows
others-updated oid uid role [] = refl
others-updated oid uid role (x ∷ rows) = ground (arith, others-updated oid uid role rows)

module _ (env : Env) (oid uid : String) where
  -- An addition that succeeds is to an organization that exists, of a user who is no member of it; then
  -- the user is a member with the role, and the other memberships are as before.
  pub add_member_ok :
      (role : String) (w : World) (m : OrganizationMember)
      → (add_member env oid uid role w).0 ≡ ok m
      → (has_organization oid w.base ≡ true)
        × (membership oid uid w.base ≡ none)
        × (role_of oid uid (add_member env oid uid role w).1.base ≡ some role)
        × (delete_where
              (is_membership oid uid)
              (add_member env oid uid role w).1.base.custody.members
            ≡ w.base.custody.members)
  unfolding add_member insert_member select lift map_error write ◌>>=◌
  add_member_ok role w m h = (
    ground arith,
    ground (arith, any-find oid uid w.base.custody.members),
    ground (arith, eq_refl oid, eq_refl uid),
    ground (
      arith,
      eq_refl oid,
      eq_refl uid,
      any-find oid uid w.base.custody.members,
      delete-unmatched oid uid w.base.custody.members,
    ),
  )

  -- A removal that succeeds has deleted the membership of the user in the organization, if there was
  -- one, and has changed nothing else.
  pub remove_member_ok :
      (w : World)
      → (remove_member env oid uid w).0 ≡ ok tt
      → (remove_member env oid uid w).1.base ≡ record (w.base) {
        custody = record (w.base.custody) {
          members = delete_where (is_membership oid uid) w.base.custody.members;
        };
      }
  unfolding remove_member remove_found find_member delete_member attempt select lift map_error write
      pure raise is_no_rows ◌>>=◌
  remove_member_ok w h = elim (Option-cases (membership oid uid w.base)) [
    | inl e ↦ ground (arith, delete-unmatched oid uid w.base.custody.members)
    | inr (m, e) ↦ ground (arith, find-key oid uid w.base.custody.members m e)
  ]

  -- With a working database a removal succeeds, for members and for others.
  pub remove_member_total :
      (w : World) → ((n : ℕ) → env.outage n ≡ false) → (remove_member env oid uid w).0 ≡ ok tt
  unfolding remove_member remove_found find_member delete_member attempt select lift map_error write
      pure raise is_no_rows ◌>>=◌
  remove_member_total w up = ground (arith, up w.asked, up (suc w.asked))

  -- A change of role that succeeds gives a member the new role, and changes no other row.
  pub update_member_role_ok :
      (role : String) (w : World)
      → (update_member_role env oid uid role w).0 ≡ ok tt
      → (is_some (role_of oid uid w.base) ≡ true)
        × (role_of oid uid (update_member_role env oid uid role w).1.base ≡ some role)
        × (delete_where
              (is_membership oid uid)
              (update_member_role env oid uid role w).1.base.custody.members
            ≡ delete_where (is_membership oid uid) w.base.custody.members)
  unfolding update_member_role find_member update_member select lift map_error write ◌>>=◌
  update_member_role_ok role w h = elim (Option-cases (membership oid uid w.base)) [
    | inl e ↦ absurd (ground arith)
    | inr (m, e) ↦ (
      ground arith,
      ground (
        arith,
        find-key oid uid w.base.custody.members m e,
        find-updated oid uid role w.base.custody.members,
      ),
      ground (
        arith,
        find-key oid uid w.base.custody.members m e,
        others-updated oid uid role w.base.custody.members,
      ),
    )
  ]
