-- ===== src/Go/Bytes.antt =====
-- `[]byte`, as the list of its bytes, `bytes.Equal`, `hex.EncodeToString`, the bytes of a string,
-- and `map[string][]byte`.
use Prim.Native.Char.{code}
use turtles_etcd_restore.Base.{
  Option, none, some, ℕ, ◌+◌, ◌-◌, ◌/◌, ◌%◌, String, ◌≡◌, refl, sym, ap, ◌∙◌, ◌↔◌, Bool, true,
  false, ◌&&◌, List, [], ◌∷◌, ◌++◌, arith, ◌==◌, eq_iff, ltb, nat_eq, if◌then◌else◌,
}
use turtles_etcd_restore.Go.Outcome.{Outcome, ok, panic}

abbrev pub Bytes : Type 0
Bytes = List ℕ

-- `bytes.Equal`
unfoldable pub bytes_equal : Bytes → Bytes → Bool
bytes_equal [] [] = true
bytes_equal [] (y ∷ ys) = false
bytes_equal (x ∷ xs) [] = false
bytes_equal (x ∷ xs) (y ∷ ys) = nat_eq x y && bytes_equal xs ys

pub bytes_equal_iff : (xs ys : Bytes) → (bytes_equal xs ys ≡ true) ↔ (xs ≡ ys)
unfolding bytes_equal
bytes_equal_iff [] [] = ground arith
bytes_equal_iff [] (y ∷ ys) = ground arith
bytes_equal_iff (x ∷ xs) [] = ground arith
bytes_equal_iff (x ∷ xs) (y ∷ ys) = ground (arith, bytes_equal_iff xs ys)

-- The UTF-8 bytes of a code point.
abbrev pub utf8 : ℕ → Bytes
utf8 c =
    if ltb c 0x80
    then c ∷ []
    else if ltb c 0x800
    then (0xc0 + c / 0x40) ∷ (0x80 + c % 0x40) ∷ []
    else if ltb c 0x10000
    then (0xe0 + c / 0x1000) ∷ (0x80 + c / 0x40 % 0x40) ∷ (0x80 + c % 0x40) ∷ []
    else (0xf0 + c / 0x40000)
      ∷ (0x80 + c / 0x1000 % 0x40)
      ∷ (0x80 + c / 0x40 % 0x40)
      ∷ (0x80 + c % 0x40)
      ∷ []

-- `[]byte(s)`
unfoldable pub bytes : String → Bytes
bytes String.[] = []
bytes (String.◌∷◌ c s) = utf8 (code c) ++ bytes s

-- A lower-case hexadecimal digit.
abbrev pub hex_digit : ℕ → ℕ
hex_digit n = if ltb n 10 then n + b'0' else n - 10 + b'a'

-- `hex.EncodeToString`
unfoldable pub hex : Bytes → Bytes
hex [] = []
hex (b ∷ bs) = hex_digit (b / 16) ∷ hex_digit (b % 16) ∷ hex bs

abbrev pub ByteMap : Type 0
ByteMap = List (String × Bytes)

-- `m[k]` on a map; a key that is missing reads as nil.
unfoldable pub index : ByteMap → String → Bytes
index [] k = []
index ((j, v) ∷ m) k = if j == k then v else index m k

-- `m[k] = v` on a map that is not nil.
unfoldable pub set_index : ByteMap → String → Bytes → ByteMap
set_index [] k v = (k, v) ∷ []
set_index ((j, w) ∷ m) k v = if j == k then (j, v) ∷ m else (j, w) ∷ set_index m k v

pub index-set_index :
    (m : ByteMap) (k j : String) (v : Bytes)
    → index (set_index m k v) j ≡ (if k == j then v else index m j)
unfolding index set_index
index-set_index [] k j v = refl
index-set_index ((i, w) ∷ m) k j v =
    ground (arith, eq_iff k j, eq_iff i k, eq_iff i j, index-set_index m k j v)

-- `m[k]` on a map that may be nil.
abbrev pub entry : Option ByteMap → String → Bytes
entry none k = []
entry (some m) k = index m k

-- `m[k] = v`, which panics on a nil map.
abbrev pub set_entry : Option ByteMap → String → Bytes → Outcome (Option ByteMap)
set_entry none k v = panic
set_entry (some m) k v = ok (some (set_index m k v))

-- `if secret.Data == nil { secret.Data = map[string][]byte{} }`
abbrev pub or_empty : Option ByteMap → Option ByteMap
or_empty none = some []
or_empty (some m) = some m

abbrev map_of : Outcome (Option ByteMap) → Option ByteMap
map_of (ok m) = m
map_of _ = none

pub entry-set_entry :
    (m : Option ByteMap) (k j : String) (v : Bytes) {m' : Option ByteMap}
    → set_entry m k v ≡ ok m'
    → entry m' j ≡ (if k == j then v else entry m j)
entry-set_entry none k j v h = cc
entry-set_entry (some m) k j v {m'} h =
    ap (λ (r : Outcome (Option ByteMap)). entry (map_of r) j) (sym h) ∙ index-set_index m k j v
