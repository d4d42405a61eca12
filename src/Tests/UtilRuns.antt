-- ===== src/Tests/UtilRuns.antt =====
-- The results about lists and texts, applied to samples.
use go_mpc_vault.Prelude.{ℕ, List, [], ◌∷◌, ◌≡◌, refl, Option, some, length, rows_where, arith}
use go_mpc_vault.Util.{contains_all}
use go_mpc_vault.Util.Random.{
  CharRange, numeric, done, is_valid, fill, append_valid, generate_random_string,
}
use go_mpc_vault.Util.Random.Stream.{take, stream, generate_random_string_ends}
use go_mpc_vault.Util.Substrings.{all_subsequences, contains_all_lem}

-- The runes of "abcd", and "ad", which is no substring of it.
abbrev abcd : List ℕ
abcd = 97 ∷ 98 ∷ 99 ∷ 100 ∷ []

abbrev ad : List ℕ
ad = 97 ∷ 100 ∷ []

contains_all_lem_example : contains_all abcd (ad ∷ []) ≡ all_subsequences abcd (ad ∷ [])
contains_all_lem_example = contains_all_lem 97 (98 ∷ 99 ∷ 100 ∷ []) (ad ∷ [])

-- Each buffer is "a1".
abbrev buffer : List ℕ
buffer = 97 ∷ 49 ∷ []

abbrev reader : ℕ → ℕ → Option (List ℕ)
reader n i = some buffer

abbrev digits : List CharRange
digits = numeric ∷ []

two_digits : generate_random_string reader 3 2 digits [] ≡ done (49 ∷ 49 ∷ [])
unfolding generate_random_string fill append_valid
two_digits = refl

generate_random_string_ends_example :
    (s : List ℕ) × (generate_random_string reader 2 2 digits [] ≡ done s)
    × (generate_random_string reader 3 2 digits [] ≡ done s)
    × (s ≡ take 2 (rows_where (is_valid digits []) (stream (λ i. buffer) 2 0)))
    × (length s ≡ 2)
unfolding stream
generate_random_string_ends_example =
    generate_random_string_ends reader (λ i. buffer) 2 2 digits [] refl (λ i. refl) (omega arith)
