-- ===== src/Tests/HashRuns.antt =====
-- A hash of a password with stand-ins for Argon2 and base64 that keep what is relied on.
use go_mpc_vault.Prelude.{
  ℕ, zero, suc, ◌+◌, ◌-◌, true, some, [], ◌∷◌, ◌≡◌, refl, arith, map, length,
}
use go_mpc_vault.Hashing.Scan.{Bytes, codes, Lacks}
use go_mpc_vault.Hashing.{
  default_argon2_params, Primitives, done, format_hash, same_bytes, hash_password,
  compare_password_and_hash,
}
use go_mpc_vault.Hashing.RoundTrip.{IsFaithful, Fits, compare_password_and_hash_correct}

abbrev padded : ℕ → Bytes → Bytes
padded zero s = []
padded (suc n) [] = 0 ∷ padded n []
padded (suc n) (c ∷ s) = c ∷ padded n s

abbrev stand_in : Primitives
stand_in = record {
  id_key = λ password salt time memory threads n. padded n password;
  encode = map (λ n. n + 100);
  decode = λ b. some (map (λ n. n - 100) b);
  salt = λ n. some (padded n []);
}

length-padded : (n : ℕ) (s : Bytes) → length (padded n s) ≡ n
length-padded zero s = refl
length-padded (suc n) [] = ground (arith, length-padded n [])
length-padded (suc n) (c ∷ s) = ground (arith, length-padded n s)

shifted_back : (b : Bytes) → map (λ n. n - 100) (map (λ n. n + 100) b) ≡ b
shifted_back [] = refl
shifted_back (c ∷ b) = ground (arith, shifted_back b)

shifted-Lacks : (b : Bytes) → Lacks 36 (map (λ n. n + 100) b)
shifted-Lacks [] = tt
shifted-Lacks (c ∷ b) = (ground arith, shifted-Lacks b)

stand_in-IsFaithful : IsFaithful stand_in
stand_in-IsFaithful = record {
  decoded = λ b. rw (shifted_back b) refl;
  plain = shifted-Lacks;
  sized = λ password salt time memory threads n. length-padded n password;
}

default-Fits : Fits default_argon2_params
default-Fits = record {
  time = omega arith;
  memory = omega arith;
  threads = omega arith;
  key_length = omega arith;
}

abbrev sample_hash : Bytes
sample_hash =
    format_hash default_argon2_params (map (λ n. n + 100) (padded 16 []))
      (map (λ n. n + 100) (padded 32 (codes "secret")))

compare_password_and_hash_correct_example :
    (salt : Bytes) × (some (padded 16 []) ≡ some salt)
    × (compare_password_and_hash stand_in (codes "secret") sample_hash ≡ done true)
    × (compare_password_and_hash stand_in (codes "guess") sample_hash
        ≡ done (same_bytes (padded 32 (codes "secret")) (padded 32 (codes "guess"))))
unfolding hash_password
compare_password_and_hash_correct_example =
    compare_password_and_hash_correct stand_in stand_in-IsFaithful (codes "guess") (codes "secret")
      sample_hash default_argon2_params default-Fits refl
