-- ===== src/Handlers/Organizations.antt =====
-- internal/api/handlers/organization/*.go. The caller's own membership or role is not looked at.
use go_mpc_vault.Prelude.{String, Option, List, map, null_text}
use go_mpc_vault.Errors.{Result}
use go_mpc_vault.Data.{Database}
use go_mpc_vault.Data.VaultTables.{Organization, OrganizationMember}
use go_mpc_vault.Exec.{Env, M, pure, lift, ◌>>=◌}
use go_mpc_vault.Middleware.{Request}
use go_mpc_vault.Organizations.{
  create_organization, list_user_organizations, list_members, add_member, remove_member,
}
use go_mpc_vault.Handlers.{current_user}

-- types.OrganizationMemberItem, types.OrganizationItem
record OrganizationMemberItem : Type 0 where
  pub user_id : String
  pub role : String

record OrganizationItem : Type 0 where
  pub id : String
  pub name : String

-- types.AddOrganizationMemberPayload
record AddMemberPayload : Type 0 where
  pub user_id : Option String
  pub role : Option String

abbrev member_item : OrganizationMember → OrganizationMemberItem
member_item m = record { user_id = m.user_id; role = m.role }

abbrev organization_item : Organization → OrganizationItem
organization_item o = record { id = o.id; name = o.name }

module _ (env : Env) where
  -- deleteOrganizationMemberHandler
  unfoldable delete_organization_member : Request → String → String → M (Unit {0})
  delete_organization_member c oid uid = remove_member env oid uid

  -- getListOrganizationMembersHandler
  unfoldable get_list_organization_members : Request → String → M (List OrganizationMemberItem)
  get_list_organization_members c oid = do
    members ← list_members env oid
    pure (map member_item members)

  -- getListOrganizationsHandler
  unfoldable get_list_organizations :
      (List String → Database → Result (List Organization)) → Request → M (List OrganizationItem)
  get_list_organizations where_in c = do
    user ← current_user c
    orgs ← list_user_organizations env where_in user.id
    pure (map organization_item orgs)

  -- postAddOrganizationMemberHandler
  unfoldable post_add_organization_member :
      Request → String → Result AddMemberPayload → M (Unit {0})
  post_add_organization_member c oid bound = do
    body ← lift bound
    added ← add_member env oid (null_text body.user_id) (null_text body.role)
    pure tt

  -- postCreateOrganizationHandler; the user is dereferenced after the body is bound.
  unfoldable post_create_organization : Request → Result (Option String) → M OrganizationItem
  post_create_organization c bound = do
    name ← lift bound
    user ← current_user c
    org ← create_organization env (null_text name) user.id
    pure (organization_item org)
