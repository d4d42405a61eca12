-- ===== src/Util/Random/Stream.antt =====
-- The text that internal/util/string.go makes of a stream of random bytes, and how many rounds it
-- takes.
use go_mpc_vault.Prelude.{
  Option-cases, ◌&&◌, ℕ, zero, suc, ◌+◌, ◌≤◌, ◌<◌, Bool, false, Option, some, List, [], ◌∷◌, ◌++◌,
  ◌≡◌, refl, arith, length, leb, ltb, Bool-cases, inl, inr, rows_where,
}
use go_mpc_vault.Util.Random.{CharRange, done, is_valid, append_valid, fill, generate_random_string}

unfoldable pub take : ℕ → List ℕ → List ℕ
take zero xs = []
take (suc n) [] = []
take (suc n) (x ∷ xs) = x ∷ take n xs

-- The first `rounds` buffers from the k-th on, one after another.
unfoldable pub stream : (ℕ → List ℕ) → ℕ → ℕ → List ℕ
stream reads zero k = []
stream reads (suc rounds) k = reads k ++ stream reads rounds (suc k)

append_assoc : (xs ys zs : List ℕ) → (xs ++ ys) ++ zs ≡ xs ++ (ys ++ zs)
append_assoc [] ys zs = refl
append_assoc (x ∷ xs) ys zs = ground (arith, append_assoc xs ys zs)

append_nil : (xs : List ℕ) → xs ++ [] ≡ xs
append_nil [] = refl
append_nil (x ∷ xs) = ground (arith, append_nil xs)

length-append : (xs ys : List ℕ) → length (xs ++ ys) ≡ length xs + length ys
length-append [] ys = omega arith
length-append (x ∷ xs) ys = ground (arith, length-append xs ys)

take_all : (n : ℕ) (xs : List ℕ) → length xs ≤ n → take n xs ≡ xs
unfolding take
take_all zero [] h = refl
take_all zero (x ∷ xs) h = absurd (omega arith)
take_all (suc n) [] h = refl
take_all (suc n) (x ∷ xs) h = ground (arith, take_all n xs (omega arith))

take-append : (n : ℕ) (xs ys : List ℕ) → n ≤ length xs → take n (xs ++ ys) ≡ take n xs
unfolding take
take-append zero xs ys h = refl
take-append (suc n) [] ys h = absurd (omega arith)
take-append (suc n) (x ∷ xs) ys h = ground (arith, take-append n xs ys (omega arith))

length-take : (n : ℕ) (xs : List ℕ) → n ≤ length xs → length (take n xs) ≡ n
unfolding take
length-take zero xs h = refl
length-take (suc n) [] h = absurd (omega arith)
length-take (suc n) (x ∷ xs) h = ground (arith, length-take n xs (omega arith))

rows_where-append :
    (f : ℕ → Bool) (xs ys : List ℕ) → rows_where f (xs ++ ys) ≡ rows_where f xs ++ rows_where f ys
rows_where-append f [] ys = refl
rows_where-append f (x ∷ xs) ys = ground (arith, rows_where-append f xs ys)

module _ (valid : ℕ → Bool) (n : ℕ) where
  append_valid_lem :
      (buf str : List ℕ)
      → length str < n
      → append_valid valid n buf str ≡ take n (str ++ rows_where valid buf)
  unfolding append_valid
  append_valid_lem [] str h = ground (arith, append_nil str, take_all n str)
  append_valid_lem (b ∷ buf) str h = elim (Bool-cases (valid b)) [
    | inr e ↦ ground (arith, append_valid_lem buf str h)
    | inl e ↦ elim (Bool-cases (leb n (length (str ++ (b ∷ []))))) [
      | inl m ↦ ground (
        arith,
        append_assoc str (b ∷ []) (rows_where valid buf),
        take-append n (str ++ (b ∷ [])) (rows_where valid buf),
        take_all n (str ++ (b ∷ [])),
        length-append str (b ∷ []),
      )
      | inr m ↦ ground (
        arith,
        append_assoc str (b ∷ []) (rows_where valid buf),
        append_valid_lem buf (str ++ (b ∷ [])) (grind arith),
      )
    ]
  ]

  fill_full :
      (rand : ℕ → Option (List ℕ)) (rounds k : ℕ) (str : List ℕ)
      → length str ≡ n
      → fill valid n rand rounds k str ≡ done str
  unfolding fill
  fill_full rand zero k str full = ground arith
  fill_full rand (suc rounds) k str full = ground arith

  -- What `rounds` rounds are given suffices if it holds enough acceptable bytes.
  fill_lem :
      (rand : ℕ → Option (List ℕ)) (reads : ℕ → List ℕ) (rounds k : ℕ) (str : List ℕ)
      → ((i : ℕ) → rand i ≡ some (reads i))
      → length str ≤ n
      → n ≤ length (str ++ rows_where valid (stream reads rounds k))
      → fill valid n rand rounds k str
        ≡ done (take n (str ++ rows_where valid (stream reads rounds k)))
  unfolding fill stream
  fill_lem rand reads zero k str answers short enough =
      ground (arith, append_nil str, take_all n str)
  fill_lem rand reads (suc rounds) k str answers short enough =
      let kept = rows_where valid (reads k) in
      let later = rows_where valid (stream reads rounds (suc k)) in
      let split = rows_where-append valid (reads k) (stream reads rounds (suc k)) in
      elim (Bool-cases (ltb (length str) n)) [
        | inr e ↦ ground (arith, take-append n str (kept ++ later), take_all n str)
        | inl e ↦ elim (Bool-cases (leb n (length (str ++ kept)))) [
          | inl m ↦ ground (
            arith,
            answers k,
            split,
            append_valid_lem (reads k) str,
            fill_full rand rounds (suc k) (take n (str ++ kept)),
            length-take n (str ++ kept),
            append_assoc str kept later,
            take-append n (str ++ kept) later,
          )
          | inr m ↦ ground (
            arith,
            answers k,
            split,
            append_valid_lem (reads k) str,
            take_all n (str ++ kept),
            append_assoc str kept later,
            fill_lem rand reads rounds (suc k) (str ++ kept) answers,
          )
        ]
      ]

  fill_more :
      (rand : ℕ → Option (List ℕ)) (rounds k : ℕ) (str s : List ℕ)
      → fill valid n rand rounds k str ≡ done s
      → fill valid n rand (suc rounds) k str ≡ done s
  unfolding fill
  fill_more rand zero k str s h = ground arith
  fill_more rand (suc rounds) k str s h = elim (Option-cases (rand k)) [
    | inl e ↦ ground arith
    | inr (buf, e) ↦ ground (arith, fill_more rand rounds (suc k) (append_valid valid n buf str) s)
  ]

-- If the buffers that are read in `rounds` rounds hold enough acceptable bytes, GenerateRandomString
-- ends within so many rounds. It returns the first n of those bytes, and not one byte less; that a
-- further round was allowed makes no difference.
pub generate_random_string_ends :
    (rand : ℕ → ℕ → Option (List ℕ)) (reads : ℕ → List ℕ) (rounds n : ℕ) (ranges : List CharRange)
    (extra : List ℕ)
    → leb (length ranges) 0 && leb (length extra) 0 ≡ false
    → ((i : ℕ) → rand n i ≡ some (reads i))
    → n ≤ length (rows_where (is_valid ranges extra) (stream reads rounds 0))
    → (s : List ℕ) × (generate_random_string rand rounds n ranges extra ≡ done s)
      × (generate_random_string rand (suc rounds) n ranges extra ≡ done s)
      × (s ≡ take n (rows_where (is_valid ranges extra) (stream reads rounds 0)))
      × (length s ≡ n)
unfolding generate_random_string
generate_random_string_ends rand reads rounds n ranges extra some_set answers enough =
    let valid = is_valid ranges extra in
    let found = rows_where valid (stream reads rounds 0) in
    let ends = fill_lem valid n (rand n) reads rounds 0 [] answers (omega arith) enough in
    (
      take n found,
      ground (arith, ends),
      ground (arith, fill_more valid n (rand n) rounds 0 [] (take n found) ends),
      refl,
      length-take n found enough,
    )
