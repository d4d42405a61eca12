-- ===== src/Util.antt =====
-- Helpers on lists and texts (internal/util/slice.go, internal/util/string.go). A text is a list of
-- runes here, as `for range` and `[]rune` read it.
pub mod Slices
pub mod Substrings
pub mod Random
use go_mpc_vault.Prelude.{
  ℕ, zero, suc, ◌+◌, String, Bool, true, false, not, ◌&&◌, ◌||◌, Option, none, some, List, [], ◌∷◌,
  map, any, length, leb, ltb, if◌then◌else◌, ◌==◌,
}

-- UniqueString: `seen` holds the strings that have been appended.
unfoldable pub unique_from : List String → List String → List String
unique_from seen [] = []
unique_from seen (s ∷ rest) =
    let kept = unique_from (s ∷ seen) rest in
    let skipped = unique_from seen rest in if any (λ x. x == s) seen then skipped else s ∷ kept

unfoldable pub unique_string : List String → List String
unique_string slice = unique_from [] slice

-- ContainsAll: one mark and one index for each substring.
pub record Progress : Type 0 where
  pub substring : List ℕ
  pub contains : Bool
  pub index : ℕ

unfoldable pub rune_at : List ℕ → ℕ → Option ℕ
rune_at [] n = none
rune_at (x ∷ xs) zero = some x
rune_at (x ∷ xs) (suc n) = rune_at xs n

abbrev pub same_rune : ℕ → ℕ → Bool
same_rune a b = not (ltb a b || ltb b a)

abbrev pub matches_at : ℕ → Option ℕ → Bool
matches_at marked none = false
matches_at marked (some r) = same_rune marked r

-- An index past the end is of a substring that is contained, which is not looked at again.
unfoldable pub advance : ℕ → Progress → Progress
advance marked p =
    let found = p.contains || leb (length p.substring) 0 in
    if not found && matches_at marked (rune_at p.substring p.index)
    then record p { contains = leb (length p.substring) (suc p.index); index = suc p.index }
    else record p { contains = found }

unfoldable pub scan : List ℕ → List Progress → List Progress
scan [] ps = ps
scan (c ∷ str) ps = scan str (map (advance c) ps)

unfoldable pub all_contained : List Progress → Bool
all_contained [] = true
all_contained (p ∷ ps) = p.contains && all_contained ps

unfoldable pub contains_all : List ℕ → List (List ℕ) → Bool
contains_all str subs =
    all_contained (scan str (map (λ s. record { substring = s; contains = false; index = 0 }) subs))
