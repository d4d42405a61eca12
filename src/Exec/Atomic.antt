-- ===== src/Exec/Atomic.antt =====
-- Requests that leave the committed tables alone, and requests that do so whenever they fail.
use go_mpc_vault.Prelude.{
  suc, String, Bool, true, false, ◌≡◌, ◌⊎◌, refl, arith, ◌∙◌, Bool-cases, inl, inr, if◌then◌else◌,
}
use go_mpc_vault.Errors.{Error, Result, ok, err}
use go_mpc_vault.Data.{Database}
use go_mpc_vault.Mpc.{CreateRootKeyRequest}
use go_mpc_vault.Exec.{
  Env, World, M, Stamp, Executor, pool, tx, pure, raise, lift, guard, map_error, attempt, wall_now,
  now, hash_new, new_uuid, send_create, select, write, finish, with_transaction, begun, ◌>>=◌,
  continue, commit_lost,
}

-- Nothing is committed.
pub record Quiet {A : Type 0} (m : M A) : Type 0 where
  pub at : (w : World) → (m w).1.base ≡ w.base

-- Nothing is committed if an error is returned.
pub record Atomic {A : Type 0} (m : M A) : Type 0 where
  pub at : (w : World) (e : Error) → (m w).0 ≡ err e → (m w).1.base ≡ w.base

module _ {A : Type 0} where
  pub Quiet-pure : (a : A) → Quiet (pure a)
  unfolding pure
  Quiet-pure a = record { at = λ w. refl }

  pub Quiet-raise : (e : Error) → Quiet (raise {A = A} e)
  unfolding raise
  Quiet-raise e = record { at = λ w. refl }

  pub Quiet-lift : (r : Result A) → Quiet (lift r)
  unfolding lift
  Quiet-lift r = record { at = λ w. refl }

  pub Quiet-map_error : (m : M A) (f : Error → Error) → Quiet m → Quiet (map_error m f)
  unfolding map_error
  Quiet-map_error m f k = record { at = k.at }

  pub Quiet-if : (b : Bool) (m n : M A) → Quiet m → Quiet n → Quiet (if b then m else n)
  Quiet-if true m n km kn = km
  Quiet-if false m n km kn = kn

  pub Quiet-select : (env : Env) (ex : Executor) (f : Database → A) → Quiet (select env ex f)
  unfolding select
  Quiet-select env ex f = record { at = λ w. ground arith }

  -- What a transaction writes is not committed yet.
  pub Quiet-write :
      (env : Env) (f : Stamp → Database → Result (A × Database)) → Quiet (write env tx f)
  unfolding write
  Quiet-write env f = record { at = λ w. ground arith }

pub Quiet-guard : (b : Bool) (e : Error) → Quiet (guard b e)
unfolding guard
Quiet-guard true e = record { at = λ w. refl }
Quiet-guard false e = record { at = λ w. refl }

pub Quiet-now : (env : Env) → Quiet (now env)
unfolding now
Quiet-now env = record { at = λ w. refl }

pub Quiet-wall_now : (env : Env) → Quiet (wall_now env)
unfolding wall_now
Quiet-wall_now env = record { at = λ w. refl }

pub Quiet-attempt : {A : Type 0} (m : M A) → Quiet m → Quiet (attempt m)
unfolding attempt
Quiet-attempt m k = record { at = k.at }

pub Quiet-hash_new : (env : Env) (s : String) → Quiet (hash_new env s)
unfolding hash_new
Quiet-hash_new env s = record { at = λ w. refl }

pub Quiet-new_uuid : (env : Env) → Quiet (new_uuid env)
unfolding new_uuid
Quiet-new_uuid env = record { at = λ w. refl }

pub Quiet-send_create : (env : Env) (r : CreateRootKeyRequest) → Quiet (send_create env r)
unfolding send_create
Quiet-send_create env r = record { at = λ w. refl }

module _ {A B : Type 0} where
  continue-Quiet :
      (r : Result A) (f : A → M B) (w : World)
      → ((a : A) → Quiet (f a))
      → (continue r f w).1.base ≡ w.base
  continue-Quiet (ok a) f w k = (k a).at w
  continue-Quiet (err e) f w k = refl

  pub Quiet-bind : (m : M A) (f : A → M B) → Quiet m → ((a : A) → Quiet (f a)) → Quiet (m >>= f)
  unfolding ◌>>=◌
  Quiet-bind m f km kf = record { at = λ w. continue-Quiet (m w).0 f (m w).1 kf ∙ km.at w }

  continue-Atomic :
      (r : Result A) (f : A → M B) (w : World) (e : Error)
      → ((a : A) → Atomic (f a))
      → (continue r f w).0 ≡ err e
      → (continue r f w).1.base ≡ w.base
  continue-Atomic (ok a) f w e k h = (k a).at w e h
  continue-Atomic (err x) f w e k h = refl

  -- A part that commits nothing may come before.
  pub Atomic-bind : (m : M A) (f : A → M B) → Quiet m → ((a : A) → Atomic (f a)) → Atomic (m >>= f)
  unfolding ◌>>=◌
  Atomic-bind m f km kf = record {
    at = λ w e h. continue-Atomic (m w).0 f (m w).1 e kf h ∙ km.at w;
  }

  -- A part that cannot fail may come after.
  pub Atomic-bind-pure : (m : M A) (g : A → B) → Atomic m → Atomic (m >>= λ a. pure (g a))
  unfolding ◌>>=◌ pure
  Atomic-bind-pure m g k = record { at = λ w e h. go (m w).0 (m w).1 w e (k.at w) h }
    where
      go :
          (r : Result A) (w' w : World) (e : Error)
          → ((x : Error) → r ≡ err x → w'.base ≡ w.base)
          → (continue r (λ a. pure (g a)) w').0 ≡ err e
          → (continue r (λ a. pure (g a)) w').1.base ≡ w.base
      go (ok a) w' w e k h = cc
      go (err x) w' w e k h = k x refl

module _ {A : Type 0} where
  pub Atomic-Quiet : (m : M A) → Quiet m → Atomic m
  Atomic-Quiet m k = record { at = λ w e h. k.at w }

  pub Atomic-if : (b : Bool) (m n : M A) → Atomic m → Atomic n → Atomic (if b then m else n)
  Atomic-if true m n km kn = km
  Atomic-if false m n km kn = kn

  pub Atomic-write :
      (env : Env) (ex : Executor) (f : Stamp → Database → Result (A × Database))
      → Atomic (write env ex f)
  unfolding write
  Atomic-write env tx f = record { at = λ w e h. ground arith }
  Atomic-write env pool f = record { at = λ w e h. ground arith }

  finish-Atomic :
      (env : Env) (r : Result A) (w : World) (e : Error)
      → (finish env (r, w)).0 ≡ err e
      → (finish env (r, w)).1.base ≡ w.base
  finish-Atomic env (ok a) w e h = cc
  finish-Atomic env (err x) w e h = refl

  -- A transaction whose body writes through `exec` alone is rolled back as a whole.
  pub Atomic-with_transaction :
      (env : Env) (body : M A) → Quiet body → Atomic (with_transaction env body)
  unfolding with_transaction
  Atomic-with_transaction env body k = record {
    at = λ w e h. elim (Bool-cases (env.outage w.asked)) [
      | inl lost ↦ rw lost
      | inr fine ↦
          let w' : World = record w { view = w.base; asked = suc w.asked } in
          rw fine (finish-Atomic env (body w').0 (body w').1 e (rw fine at h) ∙ k.at w')
    ];
  }

  pub with_transaction_ok :
      (env : Env) (body : M A) (w : World) (a : A)
      → Quiet body
      → (with_transaction env body w).0 ≡ ok a
      → ((body (begun w)).0 ≡ ok a)
        × (((commit_lost env (with_transaction env body w).1 ≡ true)
              × ((with_transaction env body w).1.base ≡ w.base))
            ⊎ ((commit_lost env (with_transaction env body w).1 ≡ false)
                × ((with_transaction env body w).1.base ≡ (body (begun w)).1.view)))
  unfolding with_transaction
  with_transaction_ok env body w a k h = ground (arith, k.at (begun w))

pub ruleset quiet_rules = (
  Quiet-pure, Quiet-raise, Quiet-lift, Quiet-map_error, Quiet-if, Quiet-select, Quiet-write,
  Quiet-guard, Quiet-now, Quiet-hash_new, Quiet-attempt, Quiet-wall_now, Quiet-bind, Quiet-new_uuid,
  Quiet-send_create,
)

pub ruleset atomic_rules =
    (quiet_rules, Atomic-bind, Atomic-if, Atomic-write, Atomic-with_transaction)
