-- ===== src/Organizations.antt =====
-- The organization service (internal/service/organization/impl.go). The clause that
-- `qm.WhereIn` makes of a column without an operator is a parameter of ListUserOrganizations.
pub mod Members
pub mod Belonging
use go_mpc_vault.Prelude.{
  String, Bool, not, ◌&&◌, ◌||◌, Option, none, some, List, [], ◌∷◌, ◌++◌, map, find, any,
  rows_where, delete_where, update_where, if◌then◌else◌, ◌==◌,
}
use go_mpc_vault.Errors.{Error, Result, ok, err, constraint, no_rows, is_no_rows, wrapped}
use go_mpc_vault.Data.{Database}
use go_mpc_vault.Data.UserTables.{has_user}
use go_mpc_vault.Data.VaultTables.{Custody, Organization, OrganizationMember}
use go_mpc_vault.Exec.{
  Env, M, Stamp, pool, pure, raise, lift, require, map_error, attempt, select, write, ◌>>=◌, ◌>>◌,
}

abbrev pub has_organization : String → Database → Bool
has_organization oid db = any (λ o. o.id == oid) db.custody.organizations

abbrev organization_is : String → Database → Option Organization
organization_is oid db = find (λ o. o.id == oid) db.custody.organizations

-- The primary key of `organization_members`.
abbrev pub is_membership : String → String → OrganizationMember → Bool
is_membership oid uid m = m.organization_id == oid && m.user_id == uid

abbrev pub membership : String → String → Database → Option OrganizationMember
membership oid uid db = find (is_membership oid uid) db.custody.members

-- INSERT INTO organizations; the database makes the key.
unfoldable pub insert_organization :
    String → String → Stamp → Database → Result (Organization × Database)
insert_organization name owner s db =
    if has_organization s.uuid db || not (has_user db.accounts.users owner)
    then err constraint
    else let row : Organization = record {
      id = s.uuid;
      name = name;
      owner_id = owner;
      created_at = some s.wall;
      updated_at = some s.wall;
    } in
      ok (
        row,
        record db {
          custody = record (db.custody) { organizations = row ∷ db.custody.organizations };
        },
      )

-- INSERT INTO organization_members
unfoldable pub insert_member :
    String → String → String → Stamp → Database → Result (OrganizationMember × Database)
insert_member oid uid role s db =
    if any (is_membership oid uid) db.custody.members
      || not (has_organization oid db && has_user db.accounts.users uid)
    then err constraint
    else let row : OrganizationMember = record {
      organization_id = oid;
      user_id = uid;
      role = role;
      created_at = some s.wall;
    } in
      ok (row, record db { custody = record (db.custody) { members = row ∷ db.custody.members } })

-- DELETE FROM organization_members WHERE organization_id = ? AND user_id = ?
unfoldable pub delete_member : OrganizationMember → Stamp → Database → Result (Unit {0} × Database)
delete_member m s db = ok (
  tt,
  record db {
    custody = record (db.custody) {
      members = delete_where (is_membership m.organization_id m.user_id) db.custody.members;
    };
  },
)

-- UPDATE organization_members with the columns of the row that was loaded, but for its key and its
-- time of creation
unfoldable update_member : OrganizationMember → Stamp → Database → Result (Unit {0} × Database)
update_member m s db = ok (
  tt,
  record db {
    custody = record (db.custody) {
      members =
          update_where (is_membership m.organization_id m.user_id) (λ x. record x { role = m.role })
            db.custody.members;
    };
  },
)

module _ (env : Env) where
  unfoldable pub create_organization : String → String → M Organization
  create_organization name owner =
      map_error (write env pool (insert_organization name owner)) (wrapped "insert organization")

  -- The organizations of the memberships; there is no query without any.
  unfoldable pub member_organizations :
      (List String → Database → Result (List Organization)) → List String → M (List Organization)
  member_organizations where_in [] = pure []
  member_organizations where_in (oid ∷ oids) =
      map_error (do found ← select env pool (where_in (oid ∷ oids)); lift found)
        (wrapped "list member organizations")

  -- Those that the user owns, and then those that the user is a member of.
  unfoldable pub list_user_organizations :
      (List String → Database → Result (List Organization)) → String → M (List Organization)
  list_user_organizations where_in uid = do
    owned ←
        map_error
          (select env pool (λ db. rows_where (λ o. o.owner_id == uid) db.custody.organizations))
          (wrapped "list owned organizations")
    memberships ←
        map_error (select env pool (λ db. rows_where (λ m. m.user_id == uid) db.custody.members))
          (wrapped "list memberships")
    joined ← member_organizations where_in (map (λ m. m.organization_id) memberships)
    pure (owned ++ joined)

  unfoldable pub list_members : String → M (List OrganizationMember)
  list_members oid =
      map_error
        (select env pool (λ db. rows_where (λ m. m.organization_id == oid) db.custody.members))
        (wrapped "list members")

  unfoldable pub add_member : String → String → String → M OrganizationMember
  add_member oid uid role = do
    map_error (do found ← select env pool (organization_is oid); lift (require found no_rows))
        (wrapped "organization not found")
    map_error (write env pool (insert_member oid uid role)) (wrapped "insert member")

  unfoldable pub find_member : String → String → M OrganizationMember
  find_member oid uid = do
    found ← select env pool (membership oid uid)
    lift (require found no_rows)

  unfoldable pub remove_found : Result OrganizationMember → M (Unit {0})
  remove_found (ok m) = map_error (write env pool (delete_member m)) (wrapped "delete member")
  remove_found (err e) = if is_no_rows e then pure tt else raise (wrapped "find member" e)

  unfoldable pub remove_member : String → String → M (Unit {0})
  remove_member oid uid = do found ← attempt (find_member oid uid); remove_found found

  unfoldable update_member_role : String → String → String → M (Unit {0})
  update_member_role oid uid role = do
    m ← map_error (find_member oid uid) (wrapped "find member")
    map_error (write env pool (update_member (record m { role = role }))) (wrapped "update member")
