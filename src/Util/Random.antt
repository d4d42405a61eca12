-- ===== src/Util/Random.antt =====
-- GenerateRandomString of internal/util/string.go. A text is a list of bytes; crypto/rand is a
-- parameter, which answers the k-th time it is asked with bytes or an error.
pub mod Stream
use go_mpc_vault.Prelude.{
  ℕ, zero, suc, Bool, true, false, ◌&&◌, ◌||◌, Option, none, some, List, [], ◌∷◌, ◌++◌, any, length,
  leb, ltb, same_number, if◌then◌else◌,
}

-- CharRange; a number that is none of the three constants accepts nothing.
pub data CharRange : Type 0 where
  numeric alpha_lower_case alpha_upper_case other : CharRange

-- `running`: the rounds allowed were not enough.
pub data Outcome : Type 0 where
  done : List ℕ → Outcome
  no_characters no_randomness running : Outcome

abbrev between : ℕ → ℕ → ℕ → Bool
between low high byte = leb low byte && leb byte high

abbrev pub in_range : ℕ → CharRange → Bool
in_range byte numeric = between 48 57 byte
in_range byte alpha_lower_case = between 97 122 byte
in_range byte alpha_upper_case = between 65 90 byte
in_range byte other = false

-- validateFn
abbrev pub is_valid : List CharRange → List ℕ → ℕ → Bool
is_valid ranges extra byte = any (same_number byte) extra || any (in_range byte) ranges

abbrev pub with_buffer : Option (List ℕ) → (List ℕ → Outcome) → Outcome
with_buffer none next = no_randomness
with_buffer (some buf) next = next buf

module _ (valid : ℕ → Bool) (n : ℕ) where
  -- One round over a buffer, which stops when the text is long enough.
  unfoldable pub append_valid : List ℕ → List ℕ → List ℕ
  append_valid [] str = str
  append_valid (b ∷ buf) str =
      let next = if valid b then str ++ (b ∷ []) else str in
      let rest = append_valid buf next in if leb n (length next) then next else rest

  unfoldable pub fill : (ℕ → Option (List ℕ)) → ℕ → ℕ → List ℕ → Outcome
  fill rand zero k str = if ltb (length str) n then running else done str
  fill rand (suc rounds) k str =
      let again = with_buffer (rand k) λ buf. fill rand rounds (suc k) (append_valid buf str) in
      if ltb (length str) n then again else done str

unfoldable pub generate_random_string :
    (ℕ → ℕ → Option (List ℕ)) → ℕ → ℕ → List CharRange → List ℕ → Outcome
generate_random_string rand rounds n ranges extra =
    if leb (length ranges) 0 && leb (length extra) 0
    then no_characters
    else fill (is_valid ranges extra) n (rand n) rounds 0 []
