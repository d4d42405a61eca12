-- ===== src/Signing/Growth.antt =====
-- internal/service/signing/impl.go one statement at a time: what a write leaves as it is for
-- the calls that are under way.
use go_mpc_vault.Prelude.{
  Bool, true, some, List, [], ◌∷◌, ◌≡◌, refl, sym, arith, find, any, ◌==◌, eq_iff, inl, inr,
  Bool-cases,
}
use go_mpc_vault.Prelude.Tables.{find-update_where, find-update_where_ne}
use go_mpc_vault.Data.{Database}
use go_mpc_vault.Data.VaultTables.{SigningRequest, Approval}
use go_mpc_vault.Exec.{Stamp, written}
use go_mpc_vault.Signing.{request_with_id, insert_approval, insert_request, update_request}
use go_mpc_vault.Signing.Backing.{Grown}

find-any : {A : Type 0} (p : A → Bool) (xs : List A) (a : A) → find p xs ≡ some a → any p xs ≡ true
find-any p [] a h = absurd (ground arith)
find-any p (x ∷ xs) a h = ground (arith, find-any p xs a)

pub find_holds : {A : Type 0} (p : A → Bool) (xs : List A) (a : A) → find p xs ≡ some a → p a ≡ true
find_holds p [] a h = absurd (ground arith)
find_holds p (x ∷ xs) a h = ground (arith, find_holds p xs a)

-- The stored request with the identifier of `r` has the transaction and the wallet of `r`.
pub record Same (r : SigningRequest) (db : Database) : Type 0 where
  pub row : SigningRequest
  pub stored : request_with_id r.id db ≡ some row
  pub tx : row.tx_data ≡ r.tx_data
  pub wallet : row.wallet_id ≡ r.wallet_id

pub insert_approval-Grown :
    (a : Approval) (s : Stamp) (db : Database) → Grown db (written (insert_approval a s db) db)
unfolding insert_approval
insert_approval-Grown a s db = record {
  request = λ rid r e. (r, ground arith, refl, refl);
  wallet = λ wid x e. ground arith;
  vault = λ vid v e. ground arith;
  approvals = λ rid. ground arith;
}

pub insert_request-Grown :
    (r : SigningRequest) (s : Stamp) (db : Database) → Grown db (written (insert_request r s db) db)
unfolding insert_request
insert_request-Grown r s db = record {
  request = λ rid q e. (
    q,
    ground (arith, find-any (λ x. x.id == rid) db.custody.requests q e, eq_iff r.id rid),
    refl,
    refl,
  );
  wallet = λ wid x e. ground arith;
  vault = λ vid v e. ground arith;
  approvals = λ rid. ground arith;
}

pub update_request-Grown :
    (r : SigningRequest) (s : Stamp) (db : Database)
    → Same r db
    → Grown db (written (update_request r s db) db)
unfolding update_request
update_request-Grown r s db same = record {
  request = λ k q e.
      let row = λ (x : SigningRequest). record r {
        id = x.id;
        created_at = x.created_at;
        updated_at = some s.wall;
      } in
      elim (Bool-cases (r.id == k)) [
        | inl h ↦
            let p : r.id ≡ k = (eq_iff r.id k).0 h in
            let e' : request_with_id r.id db ≡ some q = rw p e in
            (
              row same.row,
              rw (sym p) (
                  rw
                    (
                      find-update_where (λ x. x.id) r.id row db.custody.requests (λ x. refl),
                      same.stored,
                    )
                    refl),
              ground (arith, same.tx, same.stored),
              ground (arith, same.wallet, same.stored),
            )
        | inr h ↦ (
          q,
          rw (find-update_where_ne (λ x. x.id) r.id k row db.custody.requests (λ x. refl) h) e,
          refl,
          refl,
        )
      ];
  wallet = λ wid x e. e;
  vault = λ vid v e. e;
  approvals = λ k. omega arith;
}
