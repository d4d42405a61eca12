-- ===== src/Exec/Keeps.antt =====
-- Invariants of the database: one rule for each way to build a request. A request keeps a property
-- of the committed tables and of those that the open transaction sees, whatever `Env` answers.
use go_mpc_vault.Prelude.{suc, String, Bool, true, false, Bool-cases, inl, inr, if◌then◌else◌}
use go_mpc_vault.Errors.{Error, Result, ok, err}
use go_mpc_vault.Data.{Database}
use go_mpc_vault.Mpc.{ThresholdSignRequest, CreateRootKeyRequest}
use go_mpc_vault.Exec.{
  Env, World, M, Stamp, Executor, pool, tx, pure, raise, lift, guard, map_error, attempt, wall_now,
  now, next, put, stamp, hash_new, new_uuid, send_sign, send_create, select, write, written, finish,
  with_transaction, ◌>>=◌, continue,
}

-- `P` holds of what is committed and of what is seen.
pub record Holds (P : Database → Type 0) (w : World) : Type 0 where
  pub base : P w.base
  pub view : P w.view

pub record Keeps (P : Database → Type 0) {A : Type 0} (m : M A) : Type 0 where
  pub at : (w : World) → Holds P w → Holds P (m w).1

-- A statement that succeeds keeps `P`.
pub record Sound (P : Database → Type 0) {A : Type 0} (f : Stamp → Database → Result (A × Database))
    : Type 0 where
  pub at : (s : Stamp) (db : Database) → P db → P (written (f s db) db)

module _ {P : Database → Type 0} where
  pub Keeps-pure : {A : Type 0} (a : A) → Keeps P (pure a)
  unfolding pure
  Keeps-pure a = record { at = λ w h. h }

  pub Keeps-raise : {A : Type 0} (e : Error) → Keeps P (raise {A = A} e)
  unfolding raise
  Keeps-raise e = record { at = λ w h. h }

  pub Keeps-lift : {A : Type 0} (r : Result A) → Keeps P (lift r)
  unfolding lift
  Keeps-lift r = record { at = λ w h. h }

  pub Keeps-guard : (b : Bool) (e : Error) → Keeps P (guard b e)
  unfolding guard
  Keeps-guard true e = record { at = λ w h. h }
  Keeps-guard false e = record { at = λ w h. h }

  pub Keeps-map_error :
      {A : Type 0} (m : M A) (f : Error → Error) → Keeps P m → Keeps P (map_error m f)
  unfolding map_error
  Keeps-map_error m f k = record { at = λ w h. k.at w h }

  pub Keeps-attempt : {A : Type 0} (m : M A) → Keeps P m → Keeps P (attempt m)
  unfolding attempt
  Keeps-attempt m k = record { at = λ w h. k.at w h }

  pub Keeps-wall_now : (env : Env) → Keeps P (wall_now env)
  unfolding wall_now
  Keeps-wall_now env = record { at = λ w h. record { base = h.base; view = h.view } }

  pub Keeps-new_uuid : (env : Env) → Keeps P (new_uuid env)
  unfolding new_uuid
  Keeps-new_uuid env = record { at = λ w h. record { base = h.base; view = h.view } }

  pub Keeps-send_sign : (env : Env) (r : ThresholdSignRequest) → Keeps P (send_sign env r)
  unfolding send_sign
  Keeps-send_sign env r = record { at = λ w h. record { base = h.base; view = h.view } }

  pub Keeps-send_create : (env : Env) (r : CreateRootKeyRequest) → Keeps P (send_create env r)
  unfolding send_create
  Keeps-send_create env r = record { at = λ w h. record { base = h.base; view = h.view } }

  pub Keeps-if :
      {A : Type 0} (b : Bool) (m n : M A) → Keeps P m → Keeps P n → Keeps P (if b then m else n)
  Keeps-if true m n km kn = km
  Keeps-if false m n km kn = kn

  pub Keeps-now : (env : Env) → Keeps P (now env)
  unfolding now
  Keeps-now env = record { at = λ w h. record { base = h.base; view = h.view } }

  pub Keeps-hash_new : (env : Env) (s : String) → Keeps P (hash_new env s)
  unfolding hash_new
  Keeps-hash_new env s = record { at = λ w h. record { base = h.base; view = h.view } }

  pub Keeps-select :
      {A : Type 0} (env : Env) (ex : Executor) (f : Database → A) → Keeps P (select env ex f)
  unfolding select
  Keeps-select env ex f = record {
    at = λ w h. elim (Bool-cases (env.outage w.asked)) [
      | inl e ↦ rw e (record { base = h.base; view = h.view })
      | inr e ↦ rw e (record { base = h.base; view = h.view })
    ];
  }

  write_done :
      {A : Type 0} (ex : Executor) (s : Stamp) (f : Stamp → Database → Result (A × Database))
      → Sound P f
      → (w : World) → Holds P w
      → Holds P (next (put ex (f s) w))
  write_done pool s f k w h = record { base = k.at s w.base h.base; view = k.at s w.view h.view }
  write_done tx s f k w h = record { base = h.base; view = k.at s w.view h.view }

  pub Keeps-write :
      {A : Type 0} (env : Env) (ex : Executor) (f : Stamp → Database → Result (A × Database))
      → Sound P f
      → Keeps P (write env ex f)
  unfolding write
  Keeps-write env ex f k = record {
    at = λ w h. elim (Bool-cases (env.outage w.asked)) [
      | inl e ↦ rw e (record { base = h.base; view = h.view })
      | inr e ↦ rw e (write_done ex (stamp env w) f k w h)
    ];
  }

  continue-Keeps :
      {A B : Type 0} (r : Result A) (f : A → M B) (w : World)
      → ((a : A) → Keeps P (f a))
      → Holds P w
      → Holds P (continue r f w).1
  continue-Keeps (ok a) f w k h = (k a).at w h
  continue-Keeps (err e) f w k h = h

  pub Keeps-bind :
      {A B : Type 0} (m : M A) (f : A → M B)
      → Keeps P m
      → ((a : A) → Keeps P (f a))
      → Keeps P (m >>= f)
  unfolding ◌>>=◌
  Keeps-bind m f km kf = record { at = λ w h. continue-Keeps (m w).0 f (m w).1 kf (km.at w h) }

  finish-Keeps :
      {A : Type 0} (env : Env) (r : Result A) (w : World)
      → Holds P w
      → Holds P (finish env (r, w)).1
  finish-Keeps env (ok a) w h = elim (Bool-cases (env.outage w.asked)) [
    | inl e ↦ rw e (record { base = h.base; view = h.base })
    | inr e ↦ rw e (record { base = h.view; view = h.view })
  ]
  finish-Keeps env (err e) w h = record { base = h.base; view = h.base }

  pub Keeps-with_transaction :
      {A : Type 0} (env : Env) (body : M A) → Keeps P body → Keeps P (with_transaction env body)
  unfolding with_transaction
  Keeps-with_transaction env body k = record {
    at = λ w h. elim (Bool-cases (env.outage w.asked)) [
      | inl e ↦ rw e (record { base = h.base; view = h.view })
      | inr e ↦
          let w' : World = record w { view = w.base; asked = suc w.asked } in
          rw e (
            finish-Keeps env (body w').0 (body w').1
              (k.at w' (record { base = h.base; view = h.base })))
    ];
  }

pub ruleset keeps_rules = (
  Keeps-pure, Keeps-raise, Keeps-lift, Keeps-guard, Keeps-map_error, Keeps-if, Keeps-now,
  Keeps-hash_new, Keeps-select, Keeps-write, Keeps-bind, Keeps-with_transaction, Keeps-attempt,
  Keeps-wall_now, Keeps-new_uuid, Keeps-send_sign, Keeps-send_create,
)
