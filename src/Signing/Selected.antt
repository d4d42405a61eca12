-- ===== src/Signing/Selected.antt =====
-- The filter of ListRequests (internal/service/signing/impl.go), against its WHERE clause read as a
-- search over the rows of the three tables that it joins.
use go_mpc_vault.Prelude.{
  String, Bool, false, ◌&&◌, Option, none, some, List, [], ◌∷◌, ◌≡◌, refl, arith, rows_where, ap,
  ◌∙◌, any, null_eq, ◌==◌, eq_iff, ◌||◌,
}
use go_mpc_vault.Data.{Database}
use go_mpc_vault.Data.VaultTables.{SigningRequest, Vault, OrganizationMember, Custody}
use go_mpc_vault.Signing.Listing.{matches, member_of, shared_with, filtered}

-- JOIN vaults ON vaults.id = r.vault_id JOIN organization_members ON its organization, of the user
abbrev joins : String → SigningRequest → Vault → OrganizationMember → Bool
joins uid r v m =
    null_eq r.vault_id v.id && (null_eq v.organization_id m.organization_id && m.user_id == uid)

-- A request that some vault and some member of the vault's organization join, with the status and
-- the vault asked for, where these are.
abbrev pub wanted : String → String → String → Database → SigningRequest → Bool
wanted uid vid status db r =
    any (λ v. any (joins uid r v) db.custody.members) db.custody.vaults
    && ((status == "" || null_eq r.status status) && (vid == "" || null_eq r.vault_id vid))

any-and :
    {A : Type 0} (b : Bool) (p : A → Bool) (xs : List A) → any (λ x. b && p x) xs ≡ (b && any p xs)
any-and b p [] = ground arith
any-and b p (x ∷ xs) = ground (arith, any-and b p xs)

any_ext : {A : Type 0} (p q : A → Bool) (xs : List A) → ((x : A) → p x ≡ q x) → any p xs ≡ any q xs
any_ext p q [] h = refl
any_ext p q (x ∷ xs) h = ground (arith, h x, any_ext p q xs h)

any_none : {A : Type 0} (xs : List A) → any (λ x. false) xs ≡ false
any_none [] = refl
any_none (x ∷ xs) = any_none xs

pub rows_where_ext :
    {A : Type 0} (p q : A → Bool) (xs : List A)
    → ((x : A) → p x ≡ q x)
    → rows_where p xs ≡ rows_where q xs
rows_where_ext p q [] h = refl
rows_where_ext p q (x ∷ xs) h = ground (arith, h x, rows_where_ext p q xs h)

eq_comm : (a b : String) → (a == b) ≡ (b == a)
eq_comm a b = ground (arith, eq_iff a b, eq_iff b a)

any-member_of :
    (uid : String) (o : Option String) (c : Custody)
    → any (λ m. null_eq o m.organization_id && m.user_id == uid) c.members ≡ member_of uid o c
any-member_of uid none c = any_none c.members
any-member_of uid (some oid) c =
    any_ext (λ m. oid == m.organization_id && m.user_id == uid)
      (λ m. m.organization_id == oid && m.user_id == uid) c.members
      (λ m. ground (arith, eq_comm oid m.organization_id))

any-shared_with :
    (uid : String) (o : Option String) (c : Custody)
    → any (λ v. null_eq o v.id && member_of uid v.organization_id c) c.vaults ≡ shared_with uid o c
any-shared_with uid none c = any_none c.vaults
any-shared_with uid (some vid) c =
    any_ext (λ v. vid == v.id && member_of uid v.organization_id c)
      (λ v. v.id == vid && member_of uid v.organization_id c) c.vaults
      (λ v. ground (arith, eq_comm vid v.id))

joined_any :
    (uid : String) (c : Custody) (r : SigningRequest)
    → any (λ v. any (joins uid r v) c.members) c.vaults ≡ shared_with uid r.vault_id c
joined_any uid c r =
    any_ext (λ v. any (joins uid r v) c.members)
      (λ v. null_eq r.vault_id v.id && member_of uid v.organization_id c) c.vaults
      (λ v.
        any-and (null_eq r.vault_id v.id)
          (λ m. null_eq v.organization_id m.organization_id && m.user_id == uid) c.members
        ∙ ap (λ b. null_eq r.vault_id v.id && b) (any-member_of uid v.organization_id c))
    ∙ any-shared_with uid r.vault_id c

filtered_or :
    (wanted : String) (o : Option String) → filtered wanted o ≡ (wanted == "" || null_eq o wanted)
filtered_or wanted o = ground arith

pub matches_lem :
    (uid vid status : String) (db : Database) (r : SigningRequest)
    → matches uid vid status db r ≡ wanted uid vid status db r
matches_lem uid vid status db r =
    ground
      (arith, joined_any uid db.custody r, filtered_or status r.status, filtered_or vid r.vault_id)
