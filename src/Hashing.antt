-- ===== src/Hashing.antt =====
-- Password hashes (internal/util/hashing/argon2.go and argon2_params.go). A text is the list of its
-- bytes. Argon2 (golang.org/x/crypto) and base64 are parameters, and so is the salt.
pub mod Scan
pub mod RoundTrip
use go_mpc_vault.Prelude.{
  ℕ, Bool, true, false, Option, none, some, List, [], ◌∷◌, ◌++◌, length, not, ltb, same_number,
  ◌&&◌, ◌||◌, if◌then◌else◌,
}
use go_mpc_vault.Hashing.Scan.{Bytes, codes, decimal, scan_uint, scan_int, literal, split_at}

-- hashing.Argon2Params
pub record Argon2Params : Type 0 where
  pub time : ℕ
  pub memory : ℕ
  pub threads : ℕ
  pub key_length : ℕ
  pub salt_length : ℕ

-- DefaultArgon2Params
abbrev pub default_argon2_params : Argon2Params
default_argon2_params = record {
  time = 1;
  memory = 65536;
  threads = 4;
  key_length = 32;
  salt_length = 16;
}

-- argon2.IDKey of a password, a salt, the time, the memory, the threads and the length of the key;
-- base64.RawStdEncoding; and the salt that is drawn for a length, unless there is no randomness.
pub record Primitives : Type 0 where
  pub id_key : Bytes → Bytes → ℕ → ℕ → ℕ → ℕ → Bytes
  pub encode : Bytes → Bytes
  pub decode : Bytes → Option Bytes
  pub salt : ℕ → Option Bytes

pub data HashError : Type 0 where
  no_salt invalid_hash incompatible_version : HashError

pub data Outcome (A : Type 0) : Type 0 where
  done : A → Outcome A
  failed : HashError → Outcome A

module _ {A B : Type 0} where
  -- `if err != nil { return …, e }`
  abbrev pub or_fail : Option A → HashError → (A → Outcome B) → Outcome B
  or_fail none e f = failed e
  or_fail (some a) e f = f a

  abbrev scanned : Option A → (A → Option B) → Option B
  scanned none f = none
  scanned (some a) f = f a

  abbrev pub with_result : Outcome A → (A → Outcome B) → Outcome B
  with_result (done a) f = f a
  with_result (failed e) f = failed e

-- Argon2HashID and argon2.Version; math.MaxInt32
abbrev hash_id : Bytes
hash_id = codes "argon2id"

abbrev version : ℕ
version = 19

abbrev max_int32 : ℕ
max_int32 = 2_147_483_647

-- subtle.ConstantTimeCompare
unfoldable pub same_bytes : Bytes → Bytes → Bool
same_bytes [] [] = true
same_bytes [] (b ∷ bs) = false
same_bytes (a ∷ rest) [] = false
same_bytes (a ∷ rest) (b ∷ bs) = same_number a b && same_bytes rest bs

-- "m=%d,t=%d,p=%d"
abbrev format_params : Argon2Params → Bytes
format_params p =
    codes "m="
    ++ (decimal p.memory ++ (codes ",t=" ++ (decimal p.time ++ (codes ",p=" ++ decimal p.threads))))

abbrev format_version : Bytes
format_version = codes "v=" ++ decimal version

-- The text of a hash: an empty part, and five parts behind dollar signs
abbrev pub format_hash : Argon2Params → Bytes → Bytes → Bytes
format_hash p salt key =
    36 ∷ (hash_id ++ 36 ∷ (format_version ++ 36 ∷ (format_params p ++ 36 ∷ (salt ++ 36 ∷ key))))

-- Sscanf with "v=%d"; what follows the number is not read.
unfoldable pub scan_version : Bytes → Option (Bool × ℕ × Bytes)
scan_version s = scanned (literal (codes "v=") s) scan_int

-- Sscanf with "m=%d,t=%d,p=%d" into two uint32 and a uint8
unfoldable pub scan_params : Bytes → Option (ℕ × ℕ × ℕ)
scan_params s = scanned (literal (codes "m=") s) λ s1.
    scanned (scan_uint 4_294_967_296 s1) λ (memory, s2). scanned (literal (codes ",t=") s2) λ s3.
      scanned (scan_uint 4_294_967_296 s3) λ (time, s4).
        scanned (literal (codes ",p=") s4)
          λ s5. scanned (scan_uint 256 s5) λ (threads, s6). some (memory, time, threads)

abbrev is_version : Bool × ℕ × Bytes → Bool
is_version (negative, n, rest) = not negative && same_number n version

module _ (prim : Primitives) where
  -- HashPassword
  unfoldable pub hash_password : Bytes → Argon2Params → Outcome Bytes
  hash_password password p = or_fail (prim.salt p.salt_length) no_salt λ salt.
      let key = prim.id_key password salt p.time p.memory p.threads p.key_length in
      done (format_hash p (prim.encode salt) (prim.encode key))

  -- decodeArgon2Hash, once the parts are there
  unfoldable pub decode_parts :
      Bytes → Bytes → Bytes → Bytes → Bytes → Outcome (Argon2Params × Bytes × Bytes)
  decode_parts id v m s k =
      if not (same_bytes id hash_id)
      then failed invalid_hash
      else or_fail (scan_version v) incompatible_version λ found.
        if not (is_version found)
        then failed incompatible_version
        else or_fail (scan_params m) invalid_hash λ (memory, time, threads).
          or_fail (prim.decode s) invalid_hash λ salt. or_fail (prim.decode k) invalid_hash λ key.
            if ltb max_int32 (length key)
            then failed invalid_hash
            else done (
              record {
                time = time;
                memory = memory;
                threads = threads;
                key_length = length key;
                salt_length = 0;
              },
              salt,
              key,
            )

  abbrev decode_six : List Bytes → Outcome (Argon2Params × Bytes × Bytes)
  decode_six (empty ∷ id ∷ v ∷ m ∷ s ∷ k ∷ []) = decode_parts id v m s k
  decode_six _ = failed invalid_hash

  -- decodeArgon2Hash
  unfoldable pub decode_argon2_hash : Bytes → Outcome (Argon2Params × Bytes × Bytes)
  decode_argon2_hash hash = decode_six (split_at 36 hash)

  -- ComparePasswordAndHash
  unfoldable pub compare_password_and_hash : Bytes → Bytes → Outcome Bool
  compare_password_and_hash password hash = with_result (decode_argon2_hash hash) λ (p, salt, key).
      let found = prim.id_key password salt p.time p.memory p.threads p.key_length in
      if ltb max_int32 (length key) || ltb max_int32 (length found)
      then failed invalid_hash
      else done (same_number (length key) (length found) && same_bytes key found)
