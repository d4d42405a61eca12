-- ===== src/Util/Slices.antt =====
-- UniqueString of internal/util/slice.go.
use go_mpc_vault.Prelude.{
  String, Bool, true, false, ◌||◌, List, [], ◌∷◌, ◌≡◌, refl, arith, any, eq_iff, eq_refl, ◌==◌,
}
use go_mpc_vault.Prelude.Tables.{Distinct}
use go_mpc_vault.Util.{unique_from, unique_string}

abbrev holds : List String → String → Bool
holds xs s = any (λ x. x == s) xs

unique_from-holds :
    (seen slice : List String) (s : String)
    → (holds seen s || holds (unique_from seen slice) s) ≡ (holds seen s || holds slice s)
unfolding unique_from
unique_from-holds seen [] s = refl
unique_from-holds seen (x ∷ slice) s =
    ground (arith, unique_from-holds seen slice s, unique_from-holds (x ∷ seen) slice s, eq_iff x s)

unseen :
    (seen slice : List String) (s : String)
    → holds seen s ≡ true
    → holds (unique_from seen slice) s ≡ false
unfolding unique_from
unseen seen [] s h = refl
unseen seen (x ∷ slice) s h =
    ground (arith, unseen seen slice s, unseen (x ∷ seen) slice s, eq_iff x s)

unique_from-Distinct : (seen slice : List String) → Distinct (λ s. s) (unique_from seen slice)
unfolding unique_from
unique_from-Distinct seen [] = tt
unique_from-Distinct seen (x ∷ slice) = ground (
  arith,
  unique_from-Distinct seen slice,
  unique_from-Distinct (x ∷ seen) slice,
  unseen (x ∷ seen) slice x,
  eq_refl x,
)

-- The result holds the same strings as the slice, each once.
unique_string_lem :
    (slice : List String) (s : String)
    → Distinct (λ x. x) (unique_string slice) × (holds (unique_string slice) s ≡ holds slice s)
unfolding unique_string
unique_string_lem slice s = (unique_from-Distinct [] slice, unique_from-holds [] slice s)
