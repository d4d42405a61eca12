-- ===== src/Exec/Rely.antt =====
-- What a request may rely on while other requests run: an invariant of the world, and how much of
-- the world the others may change. One rule for each way to build a request from steps.
use go_mpc_vault.Prelude.{ℕ, ◌≡◌, arith, inl, inr}
use go_mpc_vault.Errors.{Error, Result, ok, err, Result-cases}
use go_mpc_vault.Exec.{World, renamed}
use go_mpc_vault.Exec.Steps.{
  Prog, done, step, rename, resume, ◌>>=◌, System, Step, turn, Reach, here, later,
}
use native.Mathlib.Decide.{ℕ_discrete}
use mathlib.Core.Logic.{ite}
use mathlib.Core.Path.{subst}

pub record Rely : Type 1 where
  pub Good : World → Type 0
  pub Grows : World → World → Type 0
  pub still : (w : World) → Grows w w
  pub trans : (u v w : World) → Grows u v → Grows v w → Grows u w

module _ (R : Rely) {A : Type 0} (Q : A → World → Type 0) where
  abbrev pub Post : Result A → World → Type 0
  Post (ok a) w = Q a w
  Post (err e) w = Unit

  -- In every world that comes from `w` by steps of the others, the next step of the request keeps
  -- the invariant and changes no more than it may; at the end `Q` holds of the answer.
  abbrev pub Safe : Prog A → World → Type 0
  Safe (done r) w = Post r w
  Safe (step f k) w =
      (u : World) → R.Grows w u → R.Good u → R.Good (f u) × R.Grows u (f u) × Safe (k u) (f u)

module _ (R : Rely) {A : Type 0} where
  renamed_err : (e : Error) (f : Error → Error) → (x : Error) × (renamed {A = A} (err e) f ≡ err x)
  renamed_err e f = elim (Result-cases (renamed {A = A} (err e) f)) [
    | inl (a, h) ↦ absurd (ground arith)
    | inr found ↦ found
  ]

  renamed-Post :
      (Q : A → World → Type 0) (r : Result A) (f : Error → Error) (w : World)
      → Post R Q r w
      → Post R Q (renamed r f) w
  renamed-Post Q (ok a) f w h = h
  renamed-Post Q (err e) f w h = let (x, failed) = renamed_err e f in rw failed tt

  pub Safe-rename :
      (Q : A → World → Type 0) (p : Prog A) (f : Error → Error) (w : World)
      → Safe R Q p w
      → Safe R Q (rename p f) w
  unfolding rename
  Safe-rename Q (done r) f w h = renamed-Post Q r f w h
  Safe-rename Q (step g k) f w h = λ u grown good.
      let (kept, grows, rest) = h u grown good in (kept, grows, Safe-rename Q (k u) f (g u) rest)

  Safe-mono :
      (p : Prog A) (v w : World)
      → R.Grows v w
      → Safe R (λ _ _. Unit {0}) p v
      → Safe R (λ _ _. Unit {0}) p w
  Safe-mono (done (ok a)) v w g h = tt
  Safe-mono (done (err e)) v w g h = tt
  Safe-mono (step f k) v w g h = λ u grown good. h u (R.trans v w u g grown) good

  -- The invariant holds, and every client is safe.
  abbrev AllSafe : System A → Type 0
  AllSafe s = R.Good s.world × ((i : ℕ) → Safe R (λ _ _. Unit {0}) (s.clients i) s.world)

  chosen :
      {i j : ℕ} (d : Dec (i ≡ j)) (p q : Prog A) (w : World)
      → Safe R (λ _ _. Unit {0}) p w
      → Safe R (λ _ _. Unit {0}) q w
      → Safe R (λ _ _. Unit {0}) (ite d p q) w
  chosen (yes e) p q w sp sq = sp
  chosen (no e) p q w sp sq = sq

  Step-AllSafe : {s t : System A} → Step s t → AllSafe s → AllSafe t
  Step-AllSafe {s} (turn i {f} {k} e) (good, all) =
      let (kept, grown, rest) =
        subst (λ p. Safe R (λ _ _. Unit {0}) p s.world) e (all i) s.world (R.still s.world) good in
      (
        kept,
        λ j.
            chosen (ℕ_discrete i j) (k s.world) (s.clients j) (f s.world) rest
              (Safe-mono (s.clients j) s.world (f s.world) grown (all j)),
      )

  -- What every client relies on holds however they are interleaved.
  pub Reach-AllSafe : {s t : System A} → Reach s t → AllSafe s → AllSafe t
  Reach-AllSafe here h = h
  Reach-AllSafe (later r st) h = Step-AllSafe st (Reach-AllSafe r h)

module _ (R : Rely) {A B : Type 0} (P : A → World → Type 0) (Q : B → World → Type 0) where
  resume-Safe :
      (r : Result A) (g : A → Prog B) (w : World)
      → Post R P r w
      → ((a : A) (u : World) → R.Grows w u → P a u → Safe R Q (g a) u)
      → Safe R Q (resume r g) w
  resume-Safe (ok a) g w h rest = rest a w (R.still w) h
  resume-Safe (err e) g w h rest = tt

  pub Safe-bind :
      (p : Prog A) (g : A → Prog B) (w : World)
      → Safe R P p w
      → ((a : A) (u : World) → R.Grows w u → P a u → Safe R Q (g a) u)
      → Safe R Q (p >>= g) w
  unfolding ◌>>=◌
  Safe-bind (done r) g w h rest = resume-Safe r g w h rest
  Safe-bind (step f k) g w h rest = λ u grown good.
      let (kept, grows, after) = h u grown good in
      (
        kept,
        grows,
        Safe-bind (k u) g (f u) after
            (λ a v later. rest a v (R.trans w u v grown (R.trans u (f u) v grows later))),
      )
