-- ===== src/Exec/Steps.antt =====
-- Clients that run at the same time: a request as the sequence of its atomic steps (a statement on
-- the pool of connections, a call of a service), and the interleavings of many requests. The HTTP
-- and gRPC servers serve each request in a goroutine of its own, on one pool.
use go_mpc_vault.Prelude.{ℕ, List, [], ◌∷◌, ◌≡◌, refl}
use go_mpc_vault.Errors.{Error, Result, ok, err}
use go_mpc_vault.Exec.{World, M, continue, renamed}
use native.Mathlib.Decide.{ℕ_discrete}
use mathlib.Core.Logic.{ite}

-- `step f k`: the world becomes `f w`, and the rest of the request is `k w`.
pub data Prog (A : Type 0) : Type 0 where
  done : Result A → Prog A
  step : (World → World) → (World → Prog A) → Prog A

module _ {A : Type 0} where
  -- The request alone, with nothing in between.
  unfoldable pub run : Prog A → M A
  run (done r) w = (r, w)
  run (step f k) w = run (k w) (f w)

  unfoldable pub atom : M A → Prog A
  atom m = step (λ w. (m w).1) (λ w. done (m w).0)

  abbrev pub give : A → Prog A
  give a = done (ok a)

  unfoldable pub rename : Prog A → (Error → Error) → Prog A
  rename (done r) f = done (renamed r f)
  rename (step g k) f = step g (λ w. rename (k w) f)

module _ {A B : Type 0} where
  abbrev pub resume : Result A → (A → Prog B) → Prog B
  resume (ok a) g = g a
  resume (err e) g = done (err e)

  infixl 5 ◌>>=◌ ◌>>◌
  unfoldable pub ◌>>=◌ : Prog A → (A → Prog B) → Prog B
  done r >>= g = resume r g
  step f k >>= g = step f (λ w. k w >>= g)

  abbrev pub ◌>>◌ : Prog A → Prog B → Prog B
  p >> q = p >>= λ _. q

  resume-run :
      (r : Result A) (g : A → Prog B) (w : World)
      → run (resume r g) w ≡ continue r (λ a. run (g a)) w
  unfolding run
  resume-run (ok a) g w = refl
  resume-run (err e) g w = refl

  pub run-bind :
      (p : Prog A) (g : A → Prog B) (w : World)
      → run (p >>= g) w ≡ continue (run p w).0 (λ a. run (g a)) (run p w).1
  unfolding run ◌>>=◌
  run-bind (done r) g w = resume-run r g w
  run-bind (step f k) g w = run-bind (k w) g (f w)

pub run-rename :
    {A : Type 0} (p : Prog A) (f : Error → Error) (w : World)
    → run (rename p f) w ≡ (renamed (run p w).0 f, (run p w).1)
unfolding run rename
run-rename (done r) f w = refl
run-rename (step g k) f w = run-rename (k w) f (g w)

-- Clients by number; each runs one request on the same tables.
pub record System (A : Type 0) : Type 0 where
  pub world : World
  pub clients : ℕ → Prog A

abbrev with_client : {A : Type 0} → (ℕ → Prog A) → ℕ → Prog A → ℕ → Prog A
with_client clients i p j = ite (ℕ_discrete i j) p (clients j)

-- Some client takes its next step.
pub data Step {A : Type 0} (s : System A) : System A → Type 0 where
  turn :
      (i : ℕ) {f : World → World} {k : World → Prog A}
      → s.clients i ≡ step f k
      → Step s (record { world = f s.world; clients = with_client s.clients i (k s.world) })

-- What `s` becomes, however the clients are interleaved.
pub data Reach {A : Type 0} (s : System A) : System A → Type 0 where
  here : Reach s s
  later : {t u : System A} → Reach s t → Step t u → Reach s u

-- The clients in a given order; one that has returned does nothing.
abbrev move : {A : Type 0} → Prog A → ℕ → System A → System A
move (done r) i s = s
move (step f k) i s = record { world = f s.world; clients = with_client s.clients i (k s.world) }

unfoldable pub turns : {A : Type 0} → List ℕ → System A → System A
turns [] s = s
turns (i ∷ is) s = turns is (move (s.clients i) i s)

module _ {A : Type 0} where
  move-Reach :
      (s t : System A) (i : ℕ) (p : Prog A) → t.clients i ≡ p → Reach s t → Reach s (move p i t)
  move-Reach s t i (done r) e h = h
  move-Reach s t i (step f k) e h = later h (turn i e)

  turns_after : (is : List ℕ) (s t : System A) → Reach s t → Reach s (turns is t)
  unfolding turns
  turns_after [] s t h = h
  turns_after (i ∷ is) s t h =
      turns_after is s (move (t.clients i) i t) (move-Reach s t i (t.clients i) refl h)

  -- Every order is an interleaving.
  pub turns-Reach : (is : List ℕ) (s : System A) → Reach s (turns is s)
  turns-Reach is s = turns_after is s s here
