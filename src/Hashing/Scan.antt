-- ===== src/Hashing/Scan.antt =====
-- What internal/util/hashing/argon2.go uses of strings.Split and of fmt, on bytes: the verb `%d` as it
-- is written and as it is read.
use Prim.Native.Nat.{◌%◌}
use Prim.Native.Char.{code}
use Prim.Native.String.{String}
use mathlib.Core.Path.{subst}
use go_mpc_vault.Prelude.{
  ℕ, zero, suc, ◌+◌, ◌-◌, ◌*◌, ◌/◌, Bool, true, false, ◌&&◌, ◌||◌, Option, none, some, List, [],
  ◌∷◌, ◌++◌, ◌≡◌, ◌<◌, refl, sym, ◌∙◌, arith, Bool-cases, inl, inr, ltb, leb, same_number,
  if◌then◌else◌,
}

abbrev pub Bytes : Type 0
Bytes = List ℕ

-- The bytes of a text in ASCII
abbrev pub codes : String → Bytes
codes String.[] = []
codes (String.◌∷◌ c s) = code c ∷ codes s

-- strings.Split with a separator of one byte
abbrev put_first : ℕ → List Bytes → List Bytes
put_first c [] = (c ∷ []) ∷ []
put_first c (p ∷ ps) = (c ∷ p) ∷ ps

unfoldable pub split_at : ℕ → Bytes → List Bytes
split_at sep [] = [] ∷ []
split_at sep (c ∷ s) =
    let parts = split_at sep s in if same_number c sep then [] ∷ parts else put_first c parts

-- Sprintf of a number with `%d`. Each round divides by ten; as many rounds as the number are enough.
unfoldable pub emit : ℕ → ℕ → Bytes → Bytes
emit zero n out = out
emit (suc k) n out = elim (ltb n 10) [
  | true ↦ (48 + n) ∷ out
  | false ↦ emit k (n / 10) ((48 + n % 10) ∷ out)
]

unfoldable pub decimal : ℕ → Bytes
decimal n = emit (suc n) n []

abbrev is_digit : ℕ → Bool
is_digit c = leb 48 c && leb c 57

-- The digits at the start of a text, as a number, and what is left of it.
unfoldable pub scan_digits : ℕ → Bytes → ℕ × Bytes
scan_digits n [] = (n, [])
scan_digits n (c ∷ s) =
    let longer = scan_digits (n * 10 + (c - 48)) s in if is_digit c then longer else (n, c ∷ s)

-- Blanks of ASCII before a number; a new line is none.
abbrev is_blank : ℕ → Bool
is_blank c = same_number c 32 || (same_number c 9 || (leb 11 c && leb c 13))

unfoldable pub skip_blanks : Bytes → Bytes
skip_blanks [] = []
skip_blanks (c ∷ s) = let rest = skip_blanks s in if is_blank c then rest else c ∷ s

-- A number below `limit`, with at least one digit
unfoldable pub scan_number : ℕ → Bytes → Option (ℕ × Bytes)
scan_number limit [] = none
scan_number limit (c ∷ s) =
    let (n, rest) = scan_digits 0 (c ∷ s) in
    if is_digit c && ltb n limit then some (n, rest) else none

-- Sscanf of `%d` into an unsigned integer below `limit`
unfoldable pub scan_uint : ℕ → Bytes → Option (ℕ × Bytes)
scan_uint limit s = scan_number limit (skip_blanks s)

-- Sscanf of `%d` into an int; the flag is true for a number that is written with `-`.
abbrev with_sign : Bool → Option (ℕ × Bytes) → Option (Bool × ℕ × Bytes)
with_sign b none = none
with_sign b (some (n, rest)) = some (b, n, rest)

abbrev signed : Bytes → Option (Bool × ℕ × Bytes)
signed [] = none
signed (c ∷ s) =
    if same_number c 45
    then with_sign true (scan_number 9_223_372_036_854_775_809 s)
    else if same_number c 43
    then with_sign false (scan_number 9_223_372_036_854_775_808 s)
    else with_sign false (scan_number 9_223_372_036_854_775_808 (c ∷ s))

unfoldable pub scan_int : Bytes → Option (Bool × ℕ × Bytes)
scan_int s = signed (skip_blanks s)

-- The text of a format between two verbs, and what follows it in the input
unfoldable pub literal : Bytes → Bytes → Option Bytes
literal [] s = some s
literal (k ∷ ks) [] = none
literal (k ∷ ks) (c ∷ s) = let rest = literal ks s in if same_number c k then rest else none

-- No byte of the text is `sep`.
abbrev pub Lacks : ℕ → Bytes → Type 0
Lacks sep [] = Unit
Lacks sep (c ∷ s) = (same_number c sep ≡ false) × Lacks sep s

abbrev StartsPlain : Bytes → Type 0
StartsPlain [] = Unit
StartsPlain (c ∷ s) = is_digit c ≡ false

split_at-push :
    (sep c : ℕ) (s : Bytes) (p : Bytes) (ps : List Bytes)
    → same_number c sep ≡ false
    → split_at sep s ≡ p ∷ ps
    → split_at sep (c ∷ s) ≡ (c ∷ p) ∷ ps
unfolding split_at
split_at-push sep c s p ps h e = ground arith

-- A part without the separator is cut off whole.
pub split_at-cons :
    (sep : ℕ) (p s : Bytes) → Lacks sep p → split_at sep (p ++ sep ∷ s) ≡ p ∷ split_at sep s
unfolding split_at
split_at-cons sep [] s h = ground arith
split_at-cons sep (c ∷ p) s h =
    split_at-push sep c (p ++ sep ∷ s) p (split_at sep s) h.0 (split_at-cons sep p s h.1)

pub split_at-last : (sep : ℕ) (p : Bytes) → Lacks sep p → split_at sep p ≡ p ∷ []
unfolding split_at
split_at-last sep [] h = refl
split_at-last sep (c ∷ p) h = split_at-push sep c p p [] h.0 (split_at-last sep p h.1)

scan_digits-emit :
    (k n : ℕ) (out : Bytes) → n < k → scan_digits 0 (emit k n out) ≡ scan_digits n out
unfolding emit scan_digits
scan_digits-emit zero n out h = absurd (omega arith)
scan_digits-emit (suc k) n out h = elim (Bool-cases (ltb n 10)) [
  | inl e ↦ ground arith
  | inr e ↦ ground (arith, scan_digits-emit k (n / 10) ((48 + n % 10) ∷ out))
]

scan_digits-stop : (n : ℕ) (s : Bytes) → StartsPlain s → scan_digits n s ≡ (n, s)
unfolding scan_digits
scan_digits-stop n [] h = refl
scan_digits-stop n (c ∷ s) h = ground arith

emit-append : (k n : ℕ) (out s : Bytes) → emit k n out ++ s ≡ emit k n (out ++ s)
unfolding emit
emit-append zero n out s = refl
emit-append (suc k) n out s = ground (arith, emit-append k (n / 10) ((48 + n % 10) ∷ out) s)

emit_head :
    (k n : ℕ) (out : Bytes)
    → n < k
    → (c : ℕ) × (s : Bytes) × (emit k n out ≡ c ∷ s) × (is_digit c ≡ true)
unfolding emit
emit_head zero n out h = absurd (omega arith)
emit_head (suc k) n out h = elim (Bool-cases (ltb n 10)) [
  | inl e ↦ (48 + n, out, ground arith, ground arith)
  | inr e ↦
      let (c, s, same, digit) = emit_head k (n / 10) ((48 + n % 10) ∷ out) (ground arith) in
      (c, s, ground arith, digit)
]

emit-Lacks : (k n : ℕ) (out : Bytes) → Lacks 36 out → Lacks 36 (emit k n out)
unfolding emit
emit-Lacks zero n out h = h
emit-Lacks (suc k) n out h = elim (Bool-cases (ltb n 10)) [
  | inl e ↦
      let step : (48 + n) ∷ out ≡ emit (suc k) n out = ground arith in
      subst (Lacks 36) step (ground arith, h)
  | inr e ↦
      let step : emit k (n / 10) ((48 + n % 10) ∷ out) ≡ emit (suc k) n out = ground arith in
      subst (Lacks 36) step (emit-Lacks k (n / 10) ((48 + n % 10) ∷ out) (ground arith, h))
]

pub decimal-Lacks : (n : ℕ) → Lacks 36 (decimal n)
unfolding decimal
decimal-Lacks n = emit-Lacks (suc n) n [] tt

-- What `%d` has written is read back, up to a byte that is no digit.
pub scan_uint-decimal :
    (limit n : ℕ) (s : Bytes)
    → n < limit
    → StartsPlain s
    → scan_uint limit (decimal n ++ s) ≡ some (n, s)
unfolding scan_uint decimal scan_number skip_blanks
scan_uint-decimal limit n s small plain =
    let (c, t, same, digit) = emit_head (suc n) n s (omega arith) in
    let read : scan_digits 0 (c ∷ t) ≡ (n, s) =
      rw (sym same) (scan_digits-emit (suc n) n s (omega arith) ∙ scan_digits-stop n s plain) in
    rw (emit-append (suc n) n [] s, same) (ground (arith, read))
