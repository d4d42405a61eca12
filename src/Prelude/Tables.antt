-- ===== src/Prelude/Tables.antt =====
-- What deletions, updates and insertions do to the predicates on tables.
use Prim.Native.String.{String}
use mathlib.Core.Path.{◌≡◌, refl}
use mathlib.Core.Bool.{Bool, true, false}
use mathlib.Core.List.{List, [], ◌∷◌}
use native.Mathlib.Omega.{arith}
use text.Mathlib.Text.{◌==◌}
use text.Mathlib.TextEquality.{eq_iff}
use go_mpc_vault.Prelude.Tests.{if◌then◌else◌}
use go_mpc_vault.Prelude.Rows.{All, any, delete_where, update_where, rows_where, find, map_option}

module _ {ℓ} {A : Type ℓ} where
  pub All-mono {κ} : (P Q : A → Type κ) (xs : List A) → ((x : A) → P x → Q x) → All P xs → All Q xs
  All-mono P Q [] f h = tt
  All-mono P Q (x ∷ xs) f h = (f x h.0, All-mono P Q xs f h.1)

  pub All-if {κ} :
      (P : A → Type κ) (b : Bool) (x : A) (xs : List A)
      → (b ≡ true → P x)
      → All P xs
      → All P (if b then x ∷ xs else xs)
  All-if P true x xs f h = (f refl, h)
  All-if P false x xs f h = h

  pub rows_where-All : (p : A → Bool) (xs : List A) → All (λ x. p x ≡ true) (rows_where p xs)
  rows_where-All p [] = tt
  rows_where-All p (x ∷ xs) =
      All-if (λ y. p y ≡ true) (p x) x (rows_where p xs) (λ e. e) (rows_where-All p xs)

  pub All-delete_where {κ} :
      (P : A → Type κ) (p : A → Bool) (xs : List A) → All P xs → All P (delete_where p xs)
  All-delete_where P p [] h = tt
  All-delete_where P p (x ∷ xs) h = ground (arith, All-delete_where P p xs h.1)

  pub any-delete_where :
      (q p : A → Bool) (xs : List A) → any q xs ≡ false → any q (delete_where p xs) ≡ false
  any-delete_where q p [] h = refl
  any-delete_where q p (x ∷ xs) h = ground (arith, any-delete_where q p xs)

  -- No row is left that the deletion asked for.
  pub any-delete_where_self : (p : A → Bool) (xs : List A) → any p (delete_where p xs) ≡ false
  any-delete_where_self p [] = refl
  any-delete_where_self p (x ∷ xs) = ground (arith, any-delete_where_self p xs)

  pub rows_where-delete_where : (p : A → Bool) (xs : List A) → rows_where p (delete_where p xs) ≡ []
  rows_where-delete_where p [] = refl
  rows_where-delete_where p (x ∷ xs) = ground (arith, rows_where-delete_where p xs)

module _ {ℓ} {A : Type ℓ} (key : A → String) where
  -- No two rows have the same key.
  abbrev pub Distinct : List A → Type 0
  Distinct [] = Unit
  Distinct (x ∷ xs) = (any (λ y. key y == key x) xs ≡ false) × Distinct xs

  -- An update that leaves the keys alone.
  pub any-update_where :
      (p : A → Bool) (f : A → A) (k : String) (xs : List A)
      → ((x : A) → key (f x) ≡ key x)
      → any (λ y. key y == k) (update_where p f xs) ≡ any (λ y. key y == k) xs
  any-update_where p f k [] same = refl
  any-update_where p f k (x ∷ xs) same = ground (arith, any-update_where p f k xs same, same x)

  pub Distinct-update_where :
      (p : A → Bool) (f : A → A) (xs : List A)
      → ((x : A) → key (f x) ≡ key x)
      → Distinct xs
      → Distinct (update_where p f xs)
  Distinct-update_where p f [] same h = tt
  Distinct-update_where p f (x ∷ xs) same h =
      ground
        (arith, Distinct-update_where p f xs same h.1, any-update_where p f (key x) xs same, same x)

  pub find-update_where :
      (k : String) (f : A → A) (xs : List A)
      → ((x : A) → key (f x) ≡ key x)
      → find (λ y. key y == k) (update_where (λ y. key y == k) f xs)
        ≡ map_option f (find (λ y. key y == k) xs)
  find-update_where k f [] same = refl
  find-update_where k f (x ∷ xs) same = ground (arith, find-update_where k f xs same, same x)

  pub find-update_where_ne :
      (k j : String) (f : A → A) (xs : List A)
      → ((x : A) → key (f x) ≡ key x)
      → (k == j) ≡ false
      → find (λ y. key y == j) (update_where (λ y. key y == k) f xs) ≡ find (λ y. key y == j) xs
  find-update_where_ne k j f [] same ne = refl
  find-update_where_ne k j f (x ∷ xs) same ne = ground (
    arith,
    find-update_where_ne k j f xs same ne,
    same x,
    eq_iff (key x) k,
    eq_iff (key x) j,
    eq_iff k j,
  )
