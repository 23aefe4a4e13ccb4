-- ===== src/Instructions/RoundTrip.antt =====
-- The JSON text of a string can be read back, so that a plan tells what it restores and whom it
-- joins.
use Prim.Native.Char.{code}
use text.Mathlib.TextEquality.{Char-path}
use mathlib.Core.List.{append_assoc}
use turtles_etcd_restore.Base.{
  ℕ, zero, suc, ◌+◌, ◌≤◌, ◌<◌, ◌≡◌, refl, sym, ap, ◌∙◌, String, false, Option, none, some, List, [],
  ◌∷◌, ◌++◌, arith, length, nat_eq, if◌then◌else◌, Bool-cases, inl, inr,
}
use turtles_etcd_restore.Go.Bytes.{Bytes}
use turtles_etcd_restore.Instructions.Json.{escape, escaped, quoted}
use turtles_etcd_restore.Instructions.Decode.{first_char, first_char-escape}

-- The numbers of the characters.
unfoldable pub codes : String → List ℕ
codes String.[] = []
codes (String.◌∷◌ c s) = code c ∷ codes s

abbrev push : ℕ → Option (List ℕ × Bytes) → Option (List ℕ × Bytes)
push c none = none
push c (some (cs, rest)) = some (c ∷ cs, rest)

abbrev on_char : (Bytes → Option (List ℕ × Bytes)) → Option (ℕ × Bytes) → Option (List ℕ × Bytes)
on_char go none = none
on_char go (some (c, rest)) = push c (go rest)

-- A text up to its closing quote, with as many rounds as the first argument says.
unfoldable text_from : ℕ → Bytes → Option (List ℕ × Bytes)
text_from zero bs = none
text_from (suc n) [] = none
text_from (suc n) (b ∷ bs) =
    if nat_eq b b'"'
    then some ([], bs)
    else on_char (λ rest. text_from n rest) (first_char (b ∷ bs))

-- A JSON string at the start of a text, and what follows it. A character takes a byte at least,
-- so that as many rounds as there are bytes are enough.
unfoldable pub unquote : Bytes → Option (List ℕ × Bytes)
unfolding text_from
unquote [] = none
unquote (b ∷ bs) = if nat_eq b b'"' then text_from (length bs) bs else none

quote_is_no_char :
    (b : ℕ) (bs : Bytes) (c : ℕ) (ys : Bytes)
    → first_char (b ∷ bs) ≡ some (c, ys)
    → nat_eq b b'"' ≡ false
quote_is_no_char b bs c ys e = elim (Bool-cases (nat_eq b b'"')) [ inl h ↦ cc | inr h ↦ h ]

text_from-char :
    (n : ℕ) (xs : Bytes) (c : ℕ) (ys : Bytes)
    → first_char xs ≡ some (c, ys)
    → text_from (suc n) xs ≡ push c (text_from n ys)
unfolding text_from
text_from-char n [] c ys e = cc
text_from-char n (b ∷ bs) c ys e =
    ap (λ t. if t then some ([], bs) else on_char (λ r. text_from n r) (first_char (b ∷ bs)))
      (quote_is_no_char b bs c ys e)
    ∙ ap (on_char (λ r. text_from n r)) e

text_from-escaped :
    (n : ℕ) (s : String) (rest : Bytes)
    → length (codes s) < n
    → text_from n (escaped s ++ (b'"' ∷ rest)) ≡ some (codes s, rest)
unfolding text_from escaped codes
text_from-escaped zero s rest h = absurd (omega (arith, h))
text_from-escaped (suc n) String.[] rest h = refl
text_from-escaped (suc n) (String.◌∷◌ c s) rest h =
    ap (text_from (suc n)) (append_assoc (escape (code c)) (escaped s) (b'"' ∷ rest))
    ∙ text_from-char n (escape (code c) ++ (escaped s ++ (b'"' ∷ rest))) (code c)
        (escaped s ++ (b'"' ∷ rest)) (first_char-escape (code c) _)
    ∙ ap (push (code c)) (text_from-escaped n s rest (omega arith))

length-append : (xs ys : Bytes) → length (xs ++ ys) ≡ length xs + length ys
length-append [] ys = omega arith
length-append (x ∷ xs) ys = omega (arith, length-append xs ys)

length-escape : (c : ℕ) → 1 ≤ length (escape c)
length-escape c = ground arith

rounds : (s : String) (rest : Bytes) → length (codes s) < length (escaped s ++ (b'"' ∷ rest))
unfolding codes escaped
rounds String.[] rest = omega arith
rounds (String.◌∷◌ c s) rest =
    let bytes = escape (code c) in
    let more = escaped s ++ (b'"' ∷ rest) in
    let split = ap (λ (l : Bytes). length l) (append_assoc bytes (escaped s) (b'"' ∷ rest)) in
    omega (arith, split, length-append bytes more, length-escape (code c), rounds s rest)

-- Reading the JSON text of a string, whatever follows it, gives the string's characters and what
-- follows.
pub unquote-quoted : (s : String) (rest : Bytes) → unquote (quoted s ++ rest) ≡ some (codes s, rest)
unfolding unquote quoted
unquote-quoted s rest =
    ap (λ (xs : Bytes). text_from (length xs) xs) (append_assoc (escaped s) (b'"' ∷ []) rest)
    ∙ text_from-escaped (length (escaped s ++ (b'"' ∷ rest))) s rest (rounds s rest)

abbrev head_or : List ℕ → ℕ
head_or [] = 0
head_or (x ∷ xs) = x

abbrev rest_of : List ℕ → List ℕ
rest_of [] = []
rest_of (x ∷ xs) = xs

pub codes-inj : (s t : String) → codes s ≡ codes t → s ≡ t
unfolding codes
codes-inj String.[] String.[] e = refl
codes-inj String.[] (String.◌∷◌ d t) e = cc
codes-inj (String.◌∷◌ c s) String.[] e = cc
codes-inj (String.◌∷◌ c s) (String.◌∷◌ d t) e =
    cc (Char-path c d (ap head_or e), codes-inj s t (ap rest_of e))

abbrev codes_of : Option (List ℕ × Bytes) → List ℕ
codes_of none = []
codes_of (some (cs, rest)) = cs

-- Two JSON strings at the start of a text are one.
pub quoted-inj : (s t : String) (xs ys : Bytes) → quoted s ++ xs ≡ quoted t ++ ys → s ≡ t
quoted-inj s t xs ys e =
    codes-inj s t
      (ap codes_of (sym (unquote-quoted s xs) ∙ ap (λ l. unquote l) e ∙ unquote-quoted t ys))
