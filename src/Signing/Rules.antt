-- ===== src/Signing/Rules.antt =====
-- The statements of internal/service/signing/impl.go while other calls are under way: one rule for
-- each kind of step.
use go_mpc_vault.Prelude.{String, Bool, true, false, List, inl, inr, Bool-cases}
use go_mpc_vault.Prelude.Tables.{All-mono}
use go_mpc_vault.Errors.{Error, Result, ok, err}
use go_mpc_vault.Data.{Database}
use go_mpc_vault.Mpc.{AuthToken}
use go_mpc_vault.Exec.{Env, World, Stamp, next, pool, select, write, new_uuid, send_sign, written}
use go_mpc_vault.Exec.Keeps.{Sound}
use go_mpc_vault.Exec.Rely.{Post, Safe, Safe-bind, Safe-rename}
use go_mpc_vault.Exec.Steps.{Prog, atom, done, rename, ◌>>=◌}
use go_mpc_vault.Signing.{threshold_sign}
use go_mpc_vault.Signing.Steps.{check}
use go_mpc_vault.Signing.Votes.{IsOrderly}
use go_mpc_vault.Signing.Backing.{
  Grown, Grown-refl, Backed, Backing, Backed-Grown, Backing-Grown, signing,
}

-- A step that has no promise on its answer.
abbrev pub Any : {A : Type 0} → A → World → Type 0
Any a w = Unit

pub Post-anything : {A : Type 0} (r : Result A) (w : World) → Post signing Any r w
Post-anything (ok a) w = tt
Post-anything (err e) w = tt

module _ (env : Env) where
  pub Safe-select :
      {A : Type 0} (f : Database → A) (P : A → World → Type 0) (w : World)
      → ((u : World) → Grown w.base u.base → P (f u.base) (next u))
      → Safe signing P (atom (select env pool f)) w
  unfolding select atom
  Safe-select f P w h = λ u grown good. elim (Bool-cases (env.outage u.asked)) [
    | inl e ↦ rw e (good, Grown-refl u.base, tt)
    | inr e ↦ rw e (good, Grown-refl u.base, h u grown)
  ]

  pub Safe-new_uuid : (w : World) → Safe signing Any (atom (new_uuid env)) w
  unfolding new_uuid atom
  Safe-new_uuid w = λ u grown good. (good, Grown-refl u.base, tt)

  pub Safe-write :
      {A : Type 0} (f : Stamp → Database → Result (A × Database)) (w : World)
      → Sound IsOrderly f
      → ((s : Stamp) (db : Database) → Grown w.base db → Grown db (written (f s db) db))
      → Safe signing Any (atom (write env pool f)) w
  unfolding write atom
  Safe-write f w sound grows = λ u grown good. elim (Bool-cases (env.outage u.asked)) [
    | inl e ↦ rw e (good, Grown-refl u.base, tt)
    | inr e ↦
        let s : Stamp = record { wall = env.wall u.asked; uuid = env.uuid u.asked } in
        let (base, view, calls) = good in
        let kept = grows s u.base grown in
        rw e (
          (
            sound.at s u.base base,
            sound.at s u.view view,
            All-mono (Backed u.base) (Backed (written (f s u.base) u.base)) u.calls
                (λ c. Backed-Grown c u.base (written (f s u.base) u.base) kept) calls,
          ),
          kept,
          Post-anything _ _,
        )
  ]

  pub Safe-threshold_sign :
      (key text chain_type : String) (tokens : List AuthToken) (w : World)
      → Backing key text w.base
      → Safe signing Any (atom (threshold_sign env key text chain_type tokens)) w
  unfolding threshold_sign atom send_sign
  Safe-threshold_sign key text chain_type tokens w b = λ u grown (base, view, calls). (
    (base, view, (Backing-Grown key text w.base u.base grown b, calls)),
    Grown-refl u.base,
    Post-anything _ _,
  )

  pub Safe-done : {A : Type 0} (r : Result A) (w : World) → Safe signing Any (done r) w
  Safe-done r w = Post-anything r w

  pub Safe-check : (b : Bool) (e : Error) (w : World) → Safe signing Any (check b e) w
  Safe-check true e w = tt
  Safe-check false e w = tt

  pub Safe-select_anything :
      {A : Type 0} (f : Database → A) (w : World) → Safe signing Any (atom (select env pool f)) w
  Safe-select_anything f w = Safe-select f Any w (λ u grown. tt)

pub Safe-then :
    {A B : Type 0} (Q : B → World → Type 0) (p : Prog A) (g : A → Prog B) (w : World)
    → Safe signing Any p w
    → ((a : A) (u : World) → Grown w.base u.base → Safe signing Q (g a) u)
    → Safe signing Q (p >>= g) w
Safe-then Q p g w h rest = Safe-bind signing Any Q p g w h (λ a u grown any. rest a u grown)

pub Safe-named :
    {A : Type 0} (Q : A → World → Type 0) (p : Prog A) (f : Error → Error) (w : World)
    → Safe signing Q p w
    → Safe signing Q (rename p f) w
Safe-named Q p f w h = Safe-rename signing Q p f w h

pub ruleset step_rules =
    (Safe-then, Safe-named, Safe-done, Safe-check, Safe-new_uuid, Safe-select_anything, Safe-write)
