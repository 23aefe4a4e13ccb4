-- ===== src/Instructions/Decode.antt =====
-- A decoder of JSON texts into the numbers of their characters, by the grammar of RFC 8259 and
-- UTF-8, and that it undoes the escapes.
use turtles_etcd_restore.Base.{
  ℕ, ◌+◌, ◌-◌, ◌*◌, ◌/◌, ◌%◌, ◌<◌, ◌≡◌, ap, ◌∙◌, Bool, true, false, ◌||◌, Option, none, some, [],
  ◌∷◌, ◌++◌, arith, ltb, nat_eq, if◌then◌else◌, Bool-cases, inl, inr,
}
use turtles_etcd_restore.Go.Bytes.{Bytes, utf8, hex_digit}
use turtles_etcd_restore.Instructions.Json.{escape}

-- The value of a lower-case hexadecimal digit.
abbrev pub digit_value : ℕ → ℕ
digit_value d = if ltb d 58 then d - b'0' else d - 87

-- The character that a backslash begins, and what follows it.
abbrev pub after_backslash : Bytes → Option (ℕ × Bytes)
after_backslash [] = none
after_backslash (k ∷ rest) =
    if nat_eq k b'u'
    then by_number rest
    else if nat_eq k b'n'
    then some (10, rest)
    else if nat_eq k b'r'
    then some (13, rest)
    else if nat_eq k b't'
    then some (9, rest)
    else some (k, rest)
  where
    by_number : Bytes → Option (ℕ × Bytes)
    by_number (a ∷ b ∷ c ∷ d ∷ rest) =
        some
          (((digit_value a * 16 + digit_value b) * 16 + digit_value c) * 16 + digit_value d, rest)
    by_number _ = none

-- The character of one byte or more that is written in UTF-8, and what follows it.
abbrev pub from_utf8 : ℕ → Bytes → Option (ℕ × Bytes)
from_utf8 b rest =
    if ltb b 0x80
    then some (b, rest)
    else if ltb b 0xe0
    then two b rest
    else if ltb b 0xf0
    then three b rest
    else four b rest
  where
    two : ℕ → Bytes → Option (ℕ × Bytes)
    two b (x ∷ rest) = some ((b - 0xc0) * 0x40 + (x - 0x80), rest)
    two b [] = none

    three : ℕ → Bytes → Option (ℕ × Bytes)
    three b (x ∷ y ∷ rest) = some ((b - 0xe0) * 0x1000 + (x - 0x80) * 0x40 + (y - 0x80), rest)
    three b _ = none

    four : ℕ → Bytes → Option (ℕ × Bytes)
    four b (x ∷ y ∷ z ∷ rest) =
        some ((b - 0xf0) * 0x40000 + (x - 0x80) * 0x1000 + (y - 0x80) * 0x40 + (z - 0x80), rest)
    four b _ = none

-- The first character of a text in quotes, and what follows it; none at the closing quote.
abbrev pub first_char : Bytes → Option (ℕ × Bytes)
first_char [] = none
first_char (b ∷ rest) =
    if nat_eq b b'"' then none else if nat_eq b 92 then after_backslash rest else from_utf8 b rest

digit_value-hex_digit : (n : ℕ) → n < 16 → digit_value (hex_digit n) ≡ n
digit_value-hex_digit n h = ground arith

first_char-utf8 :
    (c : ℕ) (rest : Bytes)
    → nat_eq c b'"' ≡ false
    → nat_eq c 92 ≡ false
    → first_char (utf8 c ++ rest) ≡ some (c, rest)
first_char-utf8 c rest h k = ground arith

-- A character by its number.
first_char-number :
    (a b h l : ℕ) (rest : Bytes)
    → h < 16
    → l < 16
    → first_char (92 ∷ b'u' ∷ a ∷ b ∷ hex_digit h ∷ hex_digit l ∷ rest)
      ≡ some ((digit_value a * 16 + digit_value b) * 256 + h * 16 + l, rest)
first_char-number a b h l rest hh hl =
    rw (digit_value-hex_digit h hh, digit_value-hex_digit l hl)
      (ap (λ (n : ℕ). some (n, rest)) (omega arith))

escape_quote :
    (c : ℕ) (rest : Bytes)
    → (nat_eq c b'"' || nat_eq c 92) ≡ true
    → first_char (escape c ++ rest) ≡ some (c, rest)
escape_quote c rest h = ground arith

escape_letter :
    (c : ℕ) (rest : Bytes)
    → (nat_eq c 10 || nat_eq c 13 || nat_eq c 9) ≡ true
    → first_char (escape c ++ rest) ≡ some (c, rest)
escape_letter c rest h = ground arith

-- The characters that are escaped by their number below 128.
abbrev is_special : ℕ → Bool
is_special c = ltb c 32 || nat_eq c b'<' || nat_eq c b'>' || nat_eq c b'&'

abbrev numbered : ℕ → Bytes
numbered c = 92 ∷ b'u' ∷ b'0' ∷ b'0' ∷ hex_digit (c / 16) ∷ hex_digit (c % 16) ∷ []

escape-special :
    (c : ℕ)
    → (nat_eq c 10 || nat_eq c 13 || nat_eq c 9) ≡ false
    → is_special c ≡ true
    → escape c ≡ numbered c
escape-special c h k = ground arith

special-le : (c : ℕ) → is_special c ≡ true → c < 256
special-le c h = ground arith

escape_special :
    (c : ℕ) (rest : Bytes)
    → (nat_eq c 10 || nat_eq c 13 || nat_eq c 9) ≡ false
    → is_special c ≡ true
    → first_char (escape c ++ rest) ≡ some (c, rest)
escape_special c rest h k =
    let bound = special-le c k in
    ap (λ (xs : Bytes). first_char (xs ++ rest)) (escape-special c h k)
    ∙ first_char-number b'0' b'0' (c / 16) (c % 16) rest (omega arith) (omega arith)
    ∙ ap (λ (n : ℕ). some (n, rest)) (omega arith)

-- The two line separators.
abbrev is_separator : ℕ → Bool
is_separator c = nat_eq c 0x2028 || nat_eq c 0x2029

escape_separator :
    (c : ℕ) (rest : Bytes) → is_separator c ≡ true → first_char (escape c ++ rest) ≡ some (c, rest)
escape_separator c rest h = ground arith

escape-plain :
    (c : ℕ)
    → (nat_eq c b'"' || nat_eq c 92) ≡ false
    → (nat_eq c 10 || nat_eq c 13 || nat_eq c 9) ≡ false
    → is_special c ≡ false
    → is_separator c ≡ false
    → escape c ≡ utf8 c
escape-plain c h k l m = ground arith

escape_plain :
    (c : ℕ) (rest : Bytes)
    → (nat_eq c b'"' || nat_eq c 92) ≡ false
    → (nat_eq c 10 || nat_eq c 13 || nat_eq c 9) ≡ false
    → is_special c ≡ false
    → is_separator c ≡ false
    → first_char (escape c ++ rest) ≡ some (c, rest)
escape_plain c rest h k l m =
    ap (λ (xs : Bytes). first_char (xs ++ rest)) (escape-plain c h k l m)
    ∙ first_char-utf8 c rest (ground (arith, h)) (ground (arith, h))

-- The escape of a character reads as the character.
pub first_char-escape : (c : ℕ) (rest : Bytes) → first_char (escape c ++ rest) ≡ some (c, rest)
first_char-escape c rest = elim (Bool-cases (nat_eq c b'"' || nat_eq c 92)) [
  | inl quote ↦ escape_quote c rest quote
  | inr h ↦ elim (Bool-cases (nat_eq c 10 || nat_eq c 13 || nat_eq c 9)) [
    | inl letter ↦ escape_letter c rest letter
    | inr k ↦ elim (Bool-cases (is_special c)) [
      | inl special ↦ escape_special c rest k special
      | inr l ↦ elim (Bool-cases (is_separator c)) [
        | inl separator ↦ escape_separator c rest separator
        | inr m ↦ escape_plain c rest h k l m
      ]
    ]
  ]
]
