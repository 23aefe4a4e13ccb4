-- ===== src/Instructions/Checksum.antt =====
-- What the checksum test of `isPlanApplied` tells, for any digest.
use turtles_etcd_restore.Base.{
  ℕ, ◌/◌, ◌%◌, ◌<◌, ◌≤◌, ◌*◌, ◌⊎◌, sym, ◌∙◌, length, ◌≡◌, ◌≢◌, refl, ◌↔◌, true, false, [], ◌∷◌,
  arith, All, ap, Bool-cases, inl, inr,
}
use mathlib.Core.Path.{subst}
use turtles_etcd_restore.Go.Bytes.{Bytes, hex, hex_digit, bytes_equal_iff}
use turtles_etcd_restore.Instructions.{is_plan_applied}

hex_digit-inj : (m n : ℕ) → m < 16 → n < 16 → hex_digit m ≡ hex_digit n → m ≡ n
hex_digit-inj m n hm hn e = ground arith

byte-eq_of_digits :
    (a b : ℕ)
    → a < 256
    → b < 256
    → hex_digit (a / 16) ≡ hex_digit (b / 16)
    → hex_digit (a % 16) ≡ hex_digit (b % 16)
    → a ≡ b
byte-eq_of_digits a b ha hb p q = omega (
  arith,
  hex_digit-inj (a / 16) (b / 16) (omega arith) (omega arith) p,
  hex_digit-inj (a % 16) (b % 16) (omega arith) (omega arith) q,
)

abbrev IsByte : ℕ → Type 0
IsByte b = b < 256

abbrev head_or : Bytes → ℕ
head_or [] = 0
head_or (x ∷ xs) = x

abbrev rest_of : Bytes → Bytes
rest_of [] = []
rest_of (x ∷ xs) = xs

-- The hexadecimal text determines the bytes.
pub hex-inj : (xs ys : Bytes) → All IsByte xs → All IsByte ys → hex xs ≡ hex ys → xs ≡ ys
unfolding hex
hex-inj [] [] hx hy e = refl
hex-inj [] (y ∷ ys) hx hy e = cc
hex-inj (x ∷ xs) [] hx hy e = cc
hex-inj (x ∷ xs) (y ∷ ys) hx hy e =
    let first = ap head_or e in
    let second = ap (λ (l : Bytes). head_or (rest_of l)) e in
    let rest = ap (λ (l : Bytes). rest_of (rest_of l)) e in
    cc (byte-eq_of_digits x y hx.0 hy.0 first second, hex-inj xs ys hx.1 hy.1 rest)

-- A digit or a letter from a to f.
abbrev pub IsHexDigit : ℕ → Type 0
IsHexDigit d = ((b'0' ≤ d) × (d ≤ b'9')) ⊎ ((b'a' ≤ d) × (d ≤ b'f'))

hex_digit-IsHexDigit : (n : ℕ) → n < 16 → IsHexDigit (hex_digit n)
hex_digit-IsHexDigit n h = ground arith

length-hex : (xs : Bytes) → length (hex xs) ≡ 2 * length xs
unfolding hex
length-hex [] = refl
length-hex (x ∷ xs) = omega (arith, length-hex xs)

hex-IsHexDigit : (xs : Bytes) → All IsByte xs → All IsHexDigit (hex xs)
unfolding hex
hex-IsHexDigit [] h = tt
hex-IsHexDigit (x ∷ xs) (hx, hs) = (
  hex_digit-IsHexDigit (x / 16) (omega arith),
  (hex_digit-IsHexDigit (x % 16) (omega arith), hex-IsHexDigit xs hs),
)

-- A digest and the checksum of the plan that a machine reports.
module _ (sha256 : Bytes → Bytes) where
  pub is_plan_applied_iff :
      (plan checksum : Bytes)
      → (is_plan_applied sha256 plan checksum ≡ true) ↔ (hex (sha256 plan) ≡ checksum)
  unfolding is_plan_applied
  is_plan_applied_iff plan checksum = bytes_equal_iff (hex (sha256 plan)) checksum

  -- A checksum that is accepted for a plan has two bytes for each byte of the plan's digest, and
  -- where the digest consists of bytes, each of them is a digit or a letter from a to f.
  pub is_plan_applied_bounds :
      (plan checksum : Bytes)
      → All IsByte (sha256 plan)
      → is_plan_applied sha256 plan checksum ≡ true
      → (length checksum ≡ 2 * length (sha256 plan)) × All IsHexDigit checksum
  is_plan_applied_bounds plan checksum digest applied =
      let e = (is_plan_applied_iff plan checksum).0 applied in
      (
        ap (λ (l : Bytes). length l) (sym e) ∙ length-hex (sha256 plan),
        subst (λ (l : Bytes). All IsHexDigit l) e (hex-IsHexDigit (sha256 plan) digest),
      )

  -- For a digest that consists of bytes, and two plans whose digests differ, a checksum that is
  -- accepted for the one plan is refused for the other.
  pub is_plan_applied_exclusive :
      (p q checksum : Bytes)
      → ((plan : Bytes) → All IsByte (sha256 plan))
      → sha256 p ≢ sha256 q
      → is_plan_applied sha256 p checksum ≡ true
      → is_plan_applied sha256 q checksum ≡ false
  is_plan_applied_exclusive p q checksum digest differ applied =
      elim (Bool-cases (is_plan_applied sha256 q checksum)) [
        | inl both ↦ absurd (
            differ (
              hex-inj (sha256 p) (sha256 q) (digest p) (digest q) (
                cc (
                  (is_plan_applied_iff p checksum).0 applied,
                  (is_plan_applied_iff q checksum).0 both,
                ))))
        | inr e ↦ e
      ]
