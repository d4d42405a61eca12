-- ===== src/Signing/Pages.antt =====
-- ListRequests of internal/service/signing/impl.go: what a page holds, and which page it is.
use Prim.Native.Nat.{◌%◌}
use go_mpc_vault.Prelude.{
  ℕ, zero, suc, ◌+◌, ◌-◌, ◌*◌, ◌≤◌, String, Bool, true, Option, none, some, List, [], ◌∷◌, ◌++◌,
  ◌≡◌, refl, sym, subst, ap, ◌∙◌, arith, length, rows_where, ltb, leb, All, inl, inr, Bool-cases,
  ◌⊎◌, if◌then◌else◌,
}
use go_mpc_vault.Prelude.Tables.{All-mono}
use go_mpc_vault.Errors.{ok}
use go_mpc_vault.Data.{Database}
use go_mpc_vault.Data.VaultTables.{SigningRequest}
use go_mpc_vault.Exec.{Env, World, pure, lift, select, ◌>>=◌}
use go_mpc_vault.Signing.Listing.{
  list_requests, matches, by_time, insert_by_time, skip, take, limit_or_default, offset_of, page_of,
  comes_first,
}
use go_mpc_vault.Signing.Selected.{wanted, rows_where_ext, matches_lem}

All-insert_by_time :
    (P : SigningRequest → Type 0) (r : SigningRequest) (rows : List SigningRequest)
    → P r
    → All P rows
    → All P (insert_by_time r rows)
unfolding insert_by_time
All-insert_by_time P r [] p h = (p, tt)
All-insert_by_time P r (q ∷ rows) p h = ground (arith, All-insert_by_time P r rows p h.1)

-- Sorting keeps every row as often as it stands there.
count-insert_by_time :
    (q : SigningRequest → Bool) (r : SigningRequest) (rows : List SigningRequest)
    → length (rows_where q (insert_by_time r rows)) ≡ length (rows_where q (r ∷ rows))
unfolding insert_by_time
count-insert_by_time q r [] = refl
count-insert_by_time q r (x ∷ rows) = ground (arith, count-insert_by_time q r rows)

count-by_time :
    (q : SigningRequest → Bool) (rows : List SigningRequest)
    → length (rows_where q (by_time rows)) ≡ length (rows_where q rows)
unfolding by_time
count-by_time q [] = refl
count-by_time q (r ∷ rows) =
    ground (arith, count-insert_by_time q r (by_time rows), count-by_time q rows)

take-skip : (n : ℕ) (rows : List SigningRequest) → rows ≡ take n rows ++ skip n rows
unfolding take skip
take-skip zero rows = refl
take-skip (suc n) [] = refl
take-skip (suc n) (r ∷ rows) = ap (λ xs. r ∷ xs) (take-skip n rows)

take_exact :
    (n : ℕ) (rows : List SigningRequest)
    → (length (take n rows) ≡ n) ⊎ ((length rows ≤ n) × (skip n rows ≡ []))
unfolding take skip
take_exact zero rows = inl refl
take_exact (suc n) [] = inr (ground arith, refl)
take_exact (suc n) (r ∷ rows) = ground (arith, take_exact n rows)

length-take : (n : ℕ) (rows : List SigningRequest) → length (take n rows) ≤ n
unfolding take
length-take zero rows = ground arith
length-take (suc n) [] = ground arith
length-take (suc n) (r ∷ rows) = ground (arith, length-take n rows)

take_nothing : (n : ℕ) (rows : List SigningRequest) → rows ≡ [] → take n rows ≡ []
unfolding take
take_nothing zero rows h = refl
take_nothing (suc n) rows h = rw h refl

-- Each row was created no earlier than those after it.
abbrev pub NewestFirst : List SigningRequest → Type 0
NewestFirst [] = Unit
NewestFirst (r ∷ rows) =
    All (λ q. comes_first r.created_at q.created_at ≡ true) rows × NewestFirst rows

comes_first_total : (a b : Option ℕ) → (comes_first a b ≡ true) ⊎ (comes_first b a ≡ true)
comes_first_total none b = inl refl
comes_first_total (some s) none = inr refl
comes_first_total (some s) (some t) = ground arith

comes_first_trans :
    (a b c : Option ℕ) → comes_first a b ≡ true → comes_first b c ≡ true → comes_first a c ≡ true
comes_first_trans none b c h k = refl
comes_first_trans (some s) none c h k = absurd (ground arith)
comes_first_trans (some s) (some t) none h k = absurd (ground arith)
comes_first_trans (some s) (some t) (some u) h k = ground arith

insert_by_time-NewestFirst :
    (r : SigningRequest) (rows : List SigningRequest)
    → NewestFirst rows
    → NewestFirst (insert_by_time r rows)
unfolding insert_by_time
insert_by_time-NewestFirst r [] h = (tt, tt)
insert_by_time-NewestFirst r (q ∷ rows) h =
    elim (Bool-cases (comes_first r.created_at q.created_at)) [
      | inl e ↦ rw e (
        (
          e,
          All-mono _ _ rows (λ x k. comes_first_trans r.created_at q.created_at x.created_at e k)
              h.0,
        ),
        (h.0, h.1),
      )
      | inr e ↦ rw e (
        All-insert_by_time (λ x. comes_first q.created_at x.created_at ≡ true) r rows
            (ground (arith, comes_first_total r.created_at q.created_at)) h.0,
        insert_by_time-NewestFirst r rows h.1,
      )
    ]

by_time-NewestFirst : (rows : List SigningRequest) → NewestFirst (by_time rows)
unfolding by_time
by_time-NewestFirst [] = tt
by_time-NewestFirst (r ∷ rows) =
    insert_by_time-NewestFirst r (by_time rows) (by_time-NewestFirst rows)

-- The size of a page, and the number of rows before it: 20 rows, and the first page, unless asked.
abbrev size : ℕ → ℕ
size limit = if leb limit 0 then 20 else limit

abbrev start : ℕ → ℕ → ℕ
start page limit =
    (((if leb page 0 then 1 else page) - 1) * size limit) % 18_446_744_073_709_551_616

-- What a page is to hold: of the requests wanted, each as often as it is stored and the newest first,
-- those after the earlier pages, as many as the size allows or as remain.
pub record IsPage (uid vid status : String) (page limit : ℕ) (db : Database)
    (items : List SigningRequest) (total : ℕ) : Type 0 where
  pub counted : total ≡ length (rows_where (wanted uid vid status db) db.custody.requests)
  pub all : List SigningRequest
  pub preceding : List SigningRequest
  pub following : List SigningRequest
  pub same :
      (q : SigningRequest → Bool)
      → length (rows_where q all)
        ≡ length (rows_where q (rows_where (wanted uid vid status db) db.custody.requests))
  pub ordered : NewestFirst all
  pub split : all ≡ preceding ++ (items ++ following)
  pub placed :
      (length preceding ≡ start page limit) ⊎ ((length all ≤ start page limit) × (items ≡ []))
  pub filled : (length items ≡ size limit) ⊎ ((length items ≤ size limit) × (following ≡ []))

length_all : (rows : List SigningRequest) → length (rows_where (λ r. true) rows) ≡ length rows
length_all [] = refl
length_all (r ∷ rows) = ground (arith, length_all rows)

length-append : (xs ys : List SigningRequest) → length (xs ++ ys) ≡ length xs + length ys
length-append [] ys = omega arith
length-append (x ∷ xs) ys = ground (arith, length-append xs ys)

pub IsPage-within :
    (uid vid status : String) (page limit : ℕ) (db : Database) (items : List SigningRequest)
    (total : ℕ)
    → IsPage uid vid status page limit db items total
    → length items ≤ total
IsPage-within uid vid status page limit db items total p = ground (
  arith,
  p.counted,
  p.same (λ r. true),
  length_all p.all,
  length_all (rows_where (wanted uid vid status db) db.custody.requests),
  ap length p.split,
  length-append p.preceding (items ++ p.following),
  length-append items p.following,
)

page_of_ok :
    (page limit : ℕ) (rows items : List SigningRequest)
    → page_of page limit rows ≡ ok items
    → items ≡ take (limit_or_default limit) (skip (offset_of page limit) rows)
page_of_ok page limit rows items h =
    elim (Bool-cases (ltb (offset_of page limit) 9_223_372_036_854_775_808)) [
      | inl e ↦ ground arith
      | inr e ↦ absurd (ground arith)
    ]

take_placed :
    (n m : ℕ) (rows : List SigningRequest)
    → (length (take m rows) ≡ m) ⊎ ((length rows ≤ m) × (take n (skip m rows) ≡ []))
take_placed n m rows = elim (take_exact m rows) [
  | inl e ↦ inl e
  | inr (few, e) ↦ inr (few, take_nothing n (skip m rows) e)
]

take_filled :
    (n : ℕ) (rows : List SigningRequest)
    → (length (take n rows) ≡ n) ⊎ ((length (take n rows) ≤ n) × (skip n rows ≡ []))
take_filled n rows = elim (take_exact n rows) [
  | inl e ↦ inl e
  | inr (few, e) ↦ inr (length-take n rows, e)
]

module _ (env : Env) (uid vid status : String) (page limit : ℕ) where
  cut_page :
      (db : Database)
      → let rows = rows_where (wanted uid vid status db) db.custody.requests in
        IsPage uid vid status page limit db
          (take (size limit) (skip (start page limit) (by_time rows)))
          (length rows)
  cut_page db =
      let rows = rows_where (wanted uid vid status db) db.custody.requests in
      let rest = skip (start page limit) (by_time rows) in
      record {
        counted = refl;
        all = by_time rows;
        preceding = take (start page limit) (by_time rows);
        following = skip (size limit) rest;
        same = λ q. count-by_time q rows;
        ordered = by_time-NewestFirst rows;
        split =
            take-skip (start page limit) (by_time rows)
            ∙ ap (λ xs. take (start page limit) (by_time rows) ++ xs) (take-skip (size limit) rest);
        placed = take_placed (size limit) (start page limit) (by_time rows);
        filled = take_filled (size limit) rest;
      }

  page_of-IsPage :
      (db : Database) (items : List SigningRequest)
      → page_of page limit (by_time (rows_where (matches uid vid status db) db.custody.requests))
        ≡ ok items
      → IsPage uid vid status page limit db items
          (length (rows_where (matches uid vid status db) db.custody.requests))
  page_of-IsPage db items h =
      let rows = rows_where (matches uid vid status db) db.custody.requests in
      let found : items ≡ take (size limit) (skip (start page limit) (by_time rows)) =
        page_of_ok page limit (by_time rows) items h in
      let same : rows ≡ rows_where (wanted uid vid status db) db.custody.requests =
        rows_where_ext (matches uid vid status db) (wanted uid vid status db) db.custody.requests
          (matches_lem uid vid status db) in
      subst (λ xs. IsPage uid vid status page limit db xs (length rows)) (sym found)
        (subst
          (λ xs.
            IsPage uid vid status page limit db
              (take (size limit) (skip (start page limit) (by_time xs))) (length xs))
          (sym same) (cut_page db))

  pub list_requests_steps :
      (w : World) (items : List SigningRequest) (total : ℕ)
      → (list_requests env uid vid status page limit w).0 ≡ ok (items, total)
      → (page_of page limit
            (by_time (rows_where (matches uid vid status w.base) w.base.custody.requests))
          ≡ ok items)
        × (total ≡ length (rows_where (matches uid vid status w.base) w.base.custody.requests))
  unfolding list_requests select lift pure ◌>>=◌
  list_requests_steps w items total h = ground arith

  -- A listing that succeeds counts the requests that are wanted: of vaults whose organization the user
  -- is a member of, with the status and the vault asked for. Sorted with the newest first, each as
  -- often as it is stored, they are the rows of the earlier pages, those answered, and the rest: a page
  -- lies past the end and is empty or begins after the earlier ones, and is full or ends the list.
  pub list_requests_correct :
      (w : World) (items : List SigningRequest) (total : ℕ)
      → (list_requests env uid vid status page limit w).0 ≡ ok (items, total)
      → IsPage uid vid status page limit w.base items total
  list_requests_correct w items total h =
      let (found, counted) = list_requests_steps w items total h in
      rw counted (page_of-IsPage w.base items found)
