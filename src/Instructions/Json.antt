-- ===== src/Instructions/Json.antt =====
-- `json.Marshal` of a `Plan`: encoding/json's text of the two structs under their `json` tags, in
-- the order of the fields, `omitempty` leaving out empty texts, empty lists and `false`.
use Prim.Native.Char.{code}
use turtles_etcd_restore.Base.{
  ℕ, ◌/◌, ◌%◌, String, Bool, true, false, List, [], ◌∷◌, ◌++◌, ◌||◌, ltb, nat_eq, if◌then◌else◌,
}
use turtles_etcd_restore.Go.Bytes.{Bytes, bytes, utf8, hex_digit}
use turtles_etcd_restore.Instructions.Types.{OneTimeInstruction, Plan}

-- The escape of a character in a JSON text: `"`, `\`, line feed, carriage return and tab by a
-- letter; other control characters, `<`, `>`, `&` and the two line separators by their number.
abbrev pub escape : ℕ → Bytes
escape c =
    if nat_eq c b'"' || nat_eq c 92
    then 92 ∷ c ∷ []
    else if nat_eq c 10
    then 92 ∷ b'n' ∷ []
    else if nat_eq c 13
    then 92 ∷ b'r' ∷ []
    else if nat_eq c 9
    then 92 ∷ b't' ∷ []
    else if ltb c 32 || nat_eq c b'<' || nat_eq c b'>' || nat_eq c b'&'
    then 92 ∷ b'u' ∷ b'0' ∷ b'0' ∷ hex_digit (c / 16) ∷ hex_digit (c % 16) ∷ []
    else if nat_eq c 0x2028 || nat_eq c 0x2029
    then 92 ∷ b'u' ∷ b'2' ∷ b'0' ∷ b'2' ∷ hex_digit (c % 16) ∷ []
    else utf8 c

unfoldable pub escaped : String → Bytes
escaped String.[] = []
escaped (String.◌∷◌ c s) = escape (code c) ++ escaped s

-- A JSON text, quoted.
unfoldable pub quoted : String → Bytes
unfolding escaped
quoted s = b'"' ∷ (escaped s ++ (b'"' ∷ []))

-- `sep` between the parts.
unfoldable pub separated : List Bytes → Bytes
separated [] = []
separated (x ∷ []) = x
separated (x ∷ y ∷ rest) = x ++ (b',' ∷ separated (y ∷ rest))

abbrev pub each {ℓ} : {A : Type ℓ} → (A → Bytes) → List A → List Bytes
each f [] = []
each f (x ∷ xs) = f x ∷ each f xs

-- A member `"tag":value` of an object.
unfoldable pub member : String → Bytes → Bytes
unfolding quoted
member tag value = quoted tag ++ (b':' ∷ value)

unfoldable pub array : List Bytes → Bytes
unfolding separated
array xs = b'[' ∷ (separated xs ++ (b']' ∷ []))

-- `omitempty` at the three kinds of fields.
abbrev pub text_member : String → String → List Bytes → List Bytes
text_member tag String.[] rest = rest
text_member tag s rest = member tag (quoted s) ∷ rest

abbrev pub list_member : String → List Bytes → List Bytes → List Bytes
list_member tag [] rest = rest
list_member tag (x ∷ xs) rest = member tag (array (x ∷ xs)) ∷ rest

abbrev pub flag_member : String → Bool → List Bytes → List Bytes
flag_member tag false rest = rest
flag_member tag true rest = member tag (bytes "true") ∷ rest

unfoldable pub instruction_json : OneTimeInstruction → Bytes
unfolding member array quoted bytes separated
instruction_json i =
    b'{'
    ∷ (separated (
          text_member "name" i.name (
            text_member "image" i.image (
              list_member "env" (each quoted i.env) (
                list_member "args" (each quoted i.args)
                  (text_member "command" i.command (flag_member "saveOutput" i.save_output []))))))
        ++ (b'}' ∷ []))

-- `json.Marshal(plan)`
unfoldable pub marshal : Plan → Bytes
unfolding instruction_json member array separated
marshal plan =
    b'{'
    ∷ (separated (list_member "instructions" (each instruction_json plan.one_time_instructions) [])
        ++ (b'}' ∷ []))
