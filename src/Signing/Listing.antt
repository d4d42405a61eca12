-- ===== src/Signing/Listing.antt =====
-- ListRequests of internal/service/signing/impl.go: the filters of the query, and its pages.
use Prim.Native.Nat.{◌%◌}
use go_mpc_vault.Prelude.{
  ℕ, zero, suc, ◌-◌, ◌*◌, String, Bool, true, false, ◌&&◌, Option, none, some, List, [], ◌∷◌,
  length, rows_where, any, null_eq, leb, ltb, if◌then◌else◌, ◌==◌,
}
use go_mpc_vault.Errors.{Result, ok, err, driver}
use go_mpc_vault.Data.{Database}
use go_mpc_vault.Data.VaultTables.{Custody, SigningRequest}
use go_mpc_vault.Exec.{Env, M, pool, pure, lift, select, ◌>>=◌}

-- organization_members.user_id = ? AND organization_members.organization_id = ?
abbrev is_member : String → String → Custody → Bool
is_member uid oid c = any (λ m. m.organization_id == oid && m.user_id == uid) c.members

abbrev pub member_of : String → Option String → Custody → Bool
member_of uid none c = false
member_of uid (some oid) c = is_member uid oid c

-- The inner joins with the vaults and the members of their organizations; as the keys of both
-- tables are unique, a request is joined at most once.
abbrev pub shared_with : String → Option String → Custody → Bool
shared_with uid none c = false
shared_with uid (some vid) c = any (λ v. v.id == vid && member_of uid v.organization_id c) c.vaults

-- A filter that is the empty text is left out of the query.
abbrev pub filtered : String → Option String → Bool
filtered wanted actual = if wanted == "" then true else null_eq actual wanted

abbrev pub matches : String → String → String → Database → SigningRequest → Bool
matches uid vid status db r =
    shared_with uid r.vault_id db.custody && (filtered status r.status && filtered vid r.vault_id)

-- ORDER BY created_at DESC, where NULL comes first
abbrev pub comes_first : Option ℕ → Option ℕ → Bool
comes_first none b = true
comes_first (some s) none = false
comes_first (some s) (some t) = leb t s

unfoldable pub insert_by_time : SigningRequest → List SigningRequest → List SigningRequest
insert_by_time r [] = r ∷ []
insert_by_time r (q ∷ rest) =
    let later = insert_by_time r rest in
    if comes_first r.created_at q.created_at then r ∷ q ∷ rest else q ∷ later

unfoldable pub by_time : List SigningRequest → List SigningRequest
by_time [] = []
by_time (r ∷ rest) = insert_by_time r (by_time rest)

unfoldable pub skip {ℓ} : {A : Type ℓ} → ℕ → List A → List A
skip zero xs = xs
skip (suc n) [] = []
skip (suc n) (x ∷ xs) = skip n xs

unfoldable pub take {ℓ} : {A : Type ℓ} → ℕ → List A → List A
take zero xs = []
take (suc n) [] = []
take (suc n) (x ∷ xs) = x ∷ take n xs

-- `limit <= 0` and `page <= 0`; a negative number stands here as 0.
abbrev pub limit_or_default : ℕ → ℕ
limit_or_default limit = if leb limit 0 then 20 else limit

abbrev page_or_default : ℕ → ℕ
page_or_default page = if leb page 0 then 1 else page

-- The product of two numbers of 64 bits. With the sign bit it is negative, which the database
-- refuses as an OFFSET.
abbrev pub offset_of : ℕ → ℕ → ℕ
offset_of page limit =
    ((page_or_default page - 1) * limit_or_default limit) % 18_446_744_073_709_551_616

abbrev pub page_of : ℕ → ℕ → List SigningRequest → Result (List SigningRequest)
page_of page limit rows =
    if ltb (offset_of page limit) 9_223_372_036_854_775_808
    then ok (take (limit_or_default limit) (skip (offset_of page limit) rows))
    else err driver

module _ (env : Env) where
  unfoldable pub list_requests : String → String → String → ℕ → ℕ → M (List SigningRequest × ℕ)
  list_requests uid vid status page limit = do
    total ←
        select env pool (λ db. length (rows_where (matches uid vid status db) db.custody.requests))
    found ← select env pool (λ db.
        page_of page limit (by_time (rows_where (matches uid vid status db) db.custody.requests)))
    items ← lift found
    pure (items, total)
