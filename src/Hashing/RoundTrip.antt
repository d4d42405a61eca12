-- ===== src/Hashing/RoundTrip.antt =====
-- HashPassword and ComparePasswordAndHash of internal/util/hashing/argon2.go: a hash is read back as it
-- was written.
use mathlib.Core.List.{append-nil}
use mathlib.Core.Path.{subst}
use go_mpc_vault.Prelude.{
  ℕ, ◌≤◌, ◌<◌, Bool, true, false, some, [], ◌∷◌, ◌++◌, ◌≡◌, refl, ◌∙◌, arith, length, same_number,
  ltb, if◌then◌else◌, inl, inr, Option-cases, ap,
}
use go_mpc_vault.Hashing.Scan.{
  Bytes, codes, decimal, emit, scan_uint, scan_int, scan_number, scan_digits, skip_blanks, literal,
  split_at, Lacks, split_at-cons, split_at-last, decimal-Lacks, scan_uint-decimal,
}
use go_mpc_vault.Hashing.{
  Argon2Params, Primitives, done, hash_id, format_version, format_params, format_hash, same_bytes,
  scan_version, scan_params, hash_password, decode_parts, decode_argon2_hash,
  compare_password_and_hash,
}

-- What the parameters promise: base64 is decoded as it was encoded, and its alphabet has no dollar sign;
-- a key has the length that was asked for.
pub record IsFaithful (prim : Primitives) : Type 0 where
  pub decoded : (b : Bytes) → prim.decode (prim.encode b) ≡ some b
  pub plain : (b : Bytes) → Lacks 36 (prim.encode b)
  pub sized :
      (password salt : Bytes) (time memory threads n : ℕ)
      → length (prim.id_key password salt time memory threads n) ≡ n

-- Parameters that fit their types, and a key that is not longer than an int32 can count
pub record Fits (p : Argon2Params) : Type 0 where
  pub time : p.time < 4_294_967_296
  pub memory : p.memory < 4_294_967_296
  pub threads : p.threads < 256
  pub key_length : p.key_length ≤ 2_147_483_647

Lacks-append : (a b : Bytes) → Lacks 36 a → Lacks 36 b → Lacks 36 (a ++ b)
Lacks-append [] b h k = k
Lacks-append (c ∷ a) b h k = (h.0, Lacks-append a b h.1 k)

-- The same for a text that is known: its bytes are compared.
abbrev lacks : Bytes → Bool
lacks [] = true
lacks (c ∷ s) = if same_number c 36 then false else lacks s

lacks-Lacks : (s : Bytes) → lacks s ≡ true → Lacks 36 s
lacks-Lacks [] h = tt
lacks-Lacks (c ∷ s) h = (ground arith, lacks-Lacks s (ground arith))

format_params-Lacks : (p : Argon2Params) → Lacks 36 (format_params p)
format_params-Lacks p = Lacks-append (codes "m=") _ (lacks-Lacks (codes "m=") refl) (
    Lacks-append (decimal p.memory) _ (decimal-Lacks p.memory) (
      Lacks-append (codes ",t=") _ (lacks-Lacks (codes ",t=") refl) (
        Lacks-append (decimal p.time) _ (decimal-Lacks p.time) (
          Lacks-append (codes ",p=") _ (lacks-Lacks (codes ",p=") refl)
            (decimal-Lacks p.threads)))))

format_version-Lacks : Lacks 36 format_version
format_version-Lacks =
    Lacks-append (codes "v=") _ (lacks-Lacks (codes "v=") refl) (decimal-Lacks 19)

split_at-format_hash :
    (p : Argon2Params) (salt key : Bytes)
    → Lacks 36 salt
    → Lacks 36 key
    → split_at 36 (format_hash p salt key)
      ≡ [] ∷ hash_id ∷ format_version ∷ format_params p ∷ salt ∷ key ∷ []
split_at-format_hash p salt key hs hk =
    rw
      (
        split_at-cons 36 []
            (hash_id ++ 36 ∷ (format_version ++ 36 ∷ (format_params p ++ 36 ∷ (salt ++ 36 ∷ key))))
            tt,
        split_at-cons 36 hash_id
            (format_version ++ 36 ∷ (format_params p ++ 36 ∷ (salt ++ 36 ∷ key)))
            (lacks-Lacks hash_id refl),
        split_at-cons 36 format_version (format_params p ++ 36 ∷ (salt ++ 36 ∷ key))
            format_version-Lacks,
        split_at-cons 36 (format_params p) (salt ++ 36 ∷ key) (format_params-Lacks p),
        split_at-cons 36 salt key hs,
        split_at-last 36 key hk,
      )
      refl

scan_params-format_params :
    (p : Argon2Params) → Fits p → scan_params (format_params p) ≡ some (p.memory, p.time, p.threads)
unfolding scan_params literal
scan_params-format_params p f =
    let last : scan_uint 256 (decimal p.threads) ≡ some (p.threads, []) =
      subst (λ s. scan_uint 256 s ≡ some (p.threads, [])) (append-nil (decimal p.threads))
        (scan_uint-decimal 256 p.threads [] f.threads tt) in
    rw
      (
        scan_uint-decimal 4_294_967_296 p.memory
            (codes ",t=" ++ (decimal p.time ++ (codes ",p=" ++ decimal p.threads))) f.memory refl,
        scan_uint-decimal 4_294_967_296 p.time (codes ",p=" ++ decimal p.threads) f.time refl,
        last,
      )
      refl

same_bytes_refl : (b : Bytes) → same_bytes b b ≡ true
unfolding same_bytes
same_bytes_refl [] = refl
same_bytes_refl (c ∷ b) = ground (arith, same_bytes_refl b)

scan_version-format_version : scan_version format_version ≡ some (false, 19, [])
unfolding scan_version scan_int scan_number scan_digits skip_blanks literal decimal emit
scan_version-format_version = refl

module _ (prim : Primitives) (faithful : IsFaithful prim) where
  decode_parts_ok :
      (p : Argon2Params) (salt key : Bytes)
      → Fits p
      → length key ≡ p.key_length
      → decode_parts prim hash_id format_version
          (format_params p)
          (prim.encode salt)
          (prim.encode key)
        ≡ done (record p { salt_length = 0 }, salt, key)
  unfolding decode_parts
  decode_parts_ok p salt key f sized =
      let short : ltb 2_147_483_647 p.key_length ≡ false = ground (arith, f.key_length) in
      rw
        (
          same_bytes_refl hash_id,
          scan_version-format_version,
          scan_params-format_params p f,
          faithful.decoded salt,
          faithful.decoded key,
          sized,
          short,
        )
        refl

  decode_argon2_hash_ok :
      (p : Argon2Params) (salt key : Bytes)
      → Fits p
      → length key ≡ p.key_length
      → decode_argon2_hash prim (format_hash p (prim.encode salt) (prim.encode key))
        ≡ done (record p { salt_length = 0 }, salt, key)
  unfolding decode_argon2_hash
  decode_argon2_hash_ok p salt key f sized =
      rw
        (split_at-format_hash p (prim.encode salt) (prim.encode key) (faithful.plain salt)
          (faithful.plain key))
        (decode_parts_ok p salt key f sized)

  -- What a comparison with a hash that was made from the password comes to: the keys of the two
  -- passwords are compared, with the salt and the parameters of the hash.
  compares :
      (q password salt : Bytes) (p : Argon2Params)
      → Fits p
      → compare_password_and_hash prim q (
          format_hash p
            (prim.encode salt)
            (prim.encode (prim.id_key password salt p.time p.memory p.threads p.key_length)))
        ≡ done (
            same_bytes
              (prim.id_key password salt p.time p.memory p.threads p.key_length)
              (prim.id_key q salt p.time p.memory p.threads p.key_length))
  unfolding compare_password_and_hash
  compares q password salt p f =
      let short : ltb 2_147_483_647 p.key_length ≡ false = ground (arith, f.key_length) in
      let same : same_number p.key_length p.key_length ≡ true = ground arith in
      rw
        (
          decode_argon2_hash_ok p salt
              (prim.id_key password salt p.time p.memory p.threads p.key_length) f
              (faithful.sized password salt p.time p.memory p.threads p.key_length),
          faithful.sized password salt p.time p.memory p.threads p.key_length,
          faithful.sized q salt p.time p.memory p.threads p.key_length,
          short,
          same,
        )
        refl

  -- A password matches the hash that was made from it. Any password matches that hash exactly if Argon2
  -- makes of both the same key, with the salt that was drawn and the parameters of the hash; so no
  -- parameter is lost or changed on the way through the text. The parameters fit their types, and the
  -- key is not longer than 2^31 - 1 bytes.
  pub compare_password_and_hash_correct :
      (q password hash : Bytes) (p : Argon2Params)
      → Fits p
      → hash_password prim password p ≡ done hash
      → (salt : Bytes) × (prim.salt p.salt_length ≡ some salt)
        × (compare_password_and_hash prim password hash ≡ done true)
        × (compare_password_and_hash prim q hash
            ≡ done (
                same_bytes
                  (prim.id_key password salt p.time p.memory p.threads p.key_length)
                  (prim.id_key q salt p.time p.memory p.threads p.key_length)))
  unfolding hash_password
  compare_password_and_hash_correct q password hash p f h =
      elim (Option-cases (prim.salt p.salt_length)) [
        | inl e ↦ absurd (ground arith)
        | inr (salt, e) ↦
            let made : hash
                ≡ format_hash p (prim.encode salt) (
                    prim.encode
                      (prim.id_key password salt p.time p.memory p.threads p.key_length)) =
              ground arith in
            (
              salt,
              e,
              rw made (
                  compares password password salt p f
                  ∙ ap done (
                      same_bytes_refl
                        (prim.id_key password salt p.time p.memory p.threads p.key_length))),
              rw made (compares q password salt p f),
            )
      ]
