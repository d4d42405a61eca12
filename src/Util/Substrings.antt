-- ===== src/Util/Substrings.antt =====
-- ContainsAll of internal/util/string.go against subsequences.
use go_mpc_vault.Prelude.{
  ℕ, zero, suc, ◌≤◌, Bool, true, false, ◌&&◌, some, List, [], ◌∷◌, map, ◌≡◌, refl, arith, length,
  leb, Bool-cases, inl, inr, if◌then◌else◌, ◌<◌,
}
use go_mpc_vault.Util.{Progress, rune_at, same_rune, advance, scan, all_contained, contains_all}

-- The runes of the one occur in the other in this order, with others between them.
unfoldable pub is_subsequence : List ℕ → List ℕ → Bool
is_subsequence [] str = true
is_subsequence (x ∷ xs) [] = false
is_subsequence (x ∷ xs) (c ∷ str) =
    let taken = is_subsequence xs str in
    let passed = is_subsequence (x ∷ xs) str in if same_rune c x then taken else passed

unfoldable pub all_subsequences : List ℕ → List (List ℕ) → Bool
all_subsequences str [] = true
all_subsequences str (s ∷ subs) = is_subsequence s str && all_subsequences str subs

unfoldable rest_of : List ℕ → ℕ → List ℕ
rest_of xs zero = xs
rest_of [] (suc n) = []
rest_of (x ∷ xs) (suc n) = rest_of xs n

-- One substring alone.
unfoldable follow : List ℕ → Progress → Progress
follow [] p = p
follow (c ∷ str) p = follow str (advance c p)

scan-map :
    (str : List ℕ) (p : Progress) (ps : List Progress)
    → scan str (p ∷ ps) ≡ follow str p ∷ scan str ps
unfolding scan follow
scan-map [] p ps = refl
scan-map (c ∷ str) p ps = scan-map str (advance c p) (map (advance c) ps)

follow_contained :
    (str : List ℕ) (p : Progress) → p.contains ≡ true → (follow str p).contains ≡ true
unfolding follow advance
follow_contained [] p h = h
follow_contained (c ∷ str) p h = follow_contained str (advance c p) (ground arith)

rest_at :
    (xs : List ℕ) (n : ℕ)
    → n < length xs
    → (x : ℕ) × (rune_at xs n ≡ some x) × (rest_of xs n ≡ x ∷ rest_of xs (suc n))
unfolding rune_at rest_of
rest_at [] n h = absurd (omega arith)
rest_at (x ∷ xs) zero h = (x, refl, refl)
rest_at (x ∷ xs) (suc n) h = rest_at xs n (omega arith)

rest_end : (xs : List ℕ) (n : ℕ) → length xs ≤ n → rest_of xs n ≡ []
unfolding rest_of
rest_end [] zero h = refl
rest_end [] (suc n) h = refl
rest_end (x ∷ xs) zero h = absurd (omega arith)
rest_end (x ∷ xs) (suc n) h = rest_end xs n (omega arith)

follow_search :
    (str sub : List ℕ) (n : ℕ)
    → n < length sub
    → (follow str (record { substring = sub; contains = false; index = n })).contains
      ≡ is_subsequence (rest_of sub n) str
unfolding follow advance is_subsequence
follow_search [] sub n h = let (x, e, f) = rest_at sub n h in ground arith
follow_search (c ∷ str) sub n h =
    let (x, e, f) = rest_at sub n h in
    elim (Bool-cases (same_rune c x)) [
      | inr differs ↦ ground (arith, follow_search str sub n h)
      | inl same ↦ elim (Bool-cases (leb (length sub) (suc n))) [
        | inl done ↦ ground (
          arith,
          rest_end sub (suc n),
          follow_contained str (record { substring = sub; contains = true; index = suc n }),
        )
        | inr more ↦ ground (arith, follow_search str sub (suc n))
      ]
    ]

abbrev start : List ℕ → Progress
start s = record { substring = s; contains = false; index = 0 }

follow_whole :
    (c : ℕ) (str sub : List ℕ)
    → (follow (c ∷ str) (start sub)).contains ≡ is_subsequence sub (c ∷ str)
unfolding follow advance is_subsequence rest_of
follow_whole c str [] =
    ground (arith, follow_contained str (record { substring = []; contains = true; index = 0 }))
follow_whole c str (x ∷ xs) = follow_search (c ∷ str) (x ∷ xs) 0 (omega arith)

scan_nil : (str : List ℕ) → scan str [] ≡ []
unfolding scan
scan_nil [] = refl
scan_nil (c ∷ str) = scan_nil str

-- On a text that is not empty, `ContainsAll` says whether each substring occurs in it rune by rune in
-- order, with other runes between: an index is not set back where a match breaks off.
pub contains_all_lem :
    (c : ℕ) (str : List ℕ) (subs : List (List ℕ))
    → contains_all (c ∷ str) subs ≡ all_subsequences (c ∷ str) subs
unfolding contains_all all_contained all_subsequences
contains_all_lem c str [] = rw (scan_nil (c ∷ str)) refl
contains_all_lem c str (s ∷ subs) = ground (
  arith,
  scan-map (c ∷ str) (start s) (map start subs),
  follow_whole c str s,
  contains_all_lem c str subs,
)
