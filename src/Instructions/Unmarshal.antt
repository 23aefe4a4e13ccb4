-- ===== src/Instructions/Unmarshal.antt =====
-- The JSON text of an instruction determines the instruction: nothing of it is lost, also where
-- `omitempty` leaves a member out.
use turtles_etcd_restore.Base.{
  ℕ, arith, String, ◌≡◌, refl, sym, ap, ◌∙◌, Bool, true, false, List, [], ◌∷◌, ◌++◌, ◌==◌,
  if◌then◌else◌,
}
use mathlib.Core.List.{append_assoc}
use turtles_etcd_restore.Go.Bytes.{Bytes}
use turtles_etcd_restore.Instructions.Types.{OneTimeInstruction}
use turtles_etcd_restore.Instructions.Json.{
  quoted, separated, each, text_member, list_member, flag_member, instruction_json,
}
use turtles_etcd_restore.Instructions.Members.{
  Readable, Opens, Member, Payload, text, texts, yes, payload_json, member_json, members-Readable,
}

-- The members that `omitempty` leaves.
abbrev text_of : String → String → List Member → List Member
text_of tag String.[] rest = rest
text_of tag (String.◌∷◌ c s) rest = record { tag = tag; payload = text (String.◌∷◌ c s) } ∷ rest

abbrev list_of : String → List String → List Member → List Member
list_of tag [] rest = rest
list_of tag (x ∷ xs) rest = record { tag = tag; payload = texts (x ∷ xs) } ∷ rest

abbrev flag_of : String → Bool → List Member → List Member
flag_of tag false rest = rest
flag_of tag true rest = record { tag = tag; payload = yes } ∷ rest

abbrev members : OneTimeInstruction → List Member
members i = text_of "name" i.name (
    text_of "image" i.image (
      list_of "env" i.env (
        list_of "args" i.args
          (text_of "command" i.command (flag_of "saveOutput" i.save_output [])))))

abbrev parts : List Member → List Bytes
parts l = each member_json l

-- A printed member in front of printed members.
text_member-text_of :
    (tag s : String) (r : List Member) {l : List Bytes}
    → l ≡ parts r
    → text_member tag s l ≡ parts (text_of tag s r)
unfolding payload_json
text_member-text_of tag String.[] r e = e
text_member-text_of tag (String.◌∷◌ c s) r e =
    ap (λ l. member_json (record { tag = tag; payload = text (String.◌∷◌ c s) }) ∷ l) e

list_member-list_of :
    (tag : String) (l : List String) (r : List Member) {k : List Bytes}
    → k ≡ parts r
    → list_member tag (each quoted l) k ≡ parts (list_of tag l r)
unfolding payload_json
list_member-list_of tag [] r e = e
list_member-list_of tag (x ∷ xs) r e =
    ap (λ l. member_json (record { tag = tag; payload = texts (x ∷ xs) }) ∷ l) e

flag_member-flag_of : (tag : String) (b : Bool) → flag_member tag b [] ≡ parts (flag_of tag b [])
unfolding payload_json
flag_member-flag_of tag false = refl
flag_member-flag_of tag true = refl

instruction_json-members :
    (i : OneTimeInstruction)
    → instruction_json i ≡ b'{' ∷ (separated (parts (members i)) ++ (b'}' ∷ []))
unfolding instruction_json
instruction_json-members i =
    ap (λ (l : List Bytes). b'{' ∷ (separated l ++ (b'}' ∷ [])))
      (text_member-text_of "name" i.name _ (
        text_member-text_of "image" i.image _ (
          list_member-list_of "env" i.env _ (
            list_member-list_of "args" i.args _ (
              text_member-text_of "command" i.command _
                (flag_member-flag_of "saveOutput" i.save_output))))))

abbrev empty : OneTimeInstruction
empty = record { name = ""; image = ""; env = []; args = []; command = ""; save_output = false }

abbrev string_in : Payload → String
string_in (text s) = s
string_in _ = ""

abbrev strings_in : Payload → List String
strings_in (texts l) = l
strings_in _ = []

-- An instruction with a member stored in it.
abbrev store : Member → OneTimeInstruction → OneTimeInstruction
store m i =
    if m.tag == "name"
    then record i { name = string_in m.payload }
    else if m.tag == "image"
    then record i { image = string_in m.payload }
    else if m.tag == "env"
    then record i { env = strings_in m.payload }
    else if m.tag == "args"
    then record i { args = strings_in m.payload }
    else if m.tag == "command"
    then record i { command = string_in m.payload }
    else record i { save_output = true }

abbrev instruction_of : List Member → OneTimeInstruction
instruction_of [] = empty
instruction_of (m ∷ rest) = store m (instruction_of rest)

-- A member in front of those that give `i`, where an empty text changes nothing.
store-text_of :
    (tag s : String) (r : List Member) (i j : OneTimeInstruction)
    → instruction_of r ≡ i
    → (s ≡ "" → i ≡ j)
    → store (record { tag = tag; payload = text s }) i ≡ j
    → instruction_of (text_of tag s r) ≡ j
store-text_of tag String.[] r i j e unset set = e ∙ unset refl
store-text_of tag (String.◌∷◌ c s) r i j e unset set =
    ap (store (record { tag = tag; payload = text (String.◌∷◌ c s) })) e ∙ set

store-list_of :
    (tag : String) (l : List String) (r : List Member) (i j : OneTimeInstruction)
    → instruction_of r ≡ i
    → (l ≡ [] → i ≡ j)
    → store (record { tag = tag; payload = texts l }) i ≡ j
    → instruction_of (list_of tag l r) ≡ j
store-list_of tag [] r i j e unset set = e ∙ unset refl
store-list_of tag (x ∷ xs) r i j e unset set =
    ap (store (record { tag = tag; payload = texts (x ∷ xs) })) e ∙ set

store-flag_of :
    (b : Bool) → instruction_of (flag_of "saveOutput" b []) ≡ record empty { save_output = b }
store-flag_of false = refl
store-flag_of true = refl

-- An instruction is what its members say.
instruction_of-members : (i : OneTimeInstruction) → instruction_of (members i) ≡ i
instruction_of-members i =
    let flag = store-flag_of i.save_output in
    let x0 = record empty { save_output = i.save_output } in
    let x1 = record x0 { command = i.command } in
    let x2 = record x1 { args = i.args } in
    let x3 = record x2 { env = i.env } in
    let x4 = record x3 { image = i.image } in
    store-text_of "name" i.name _ x4 i
      (store-text_of "image" i.image _ x3 x4
        (store-list_of "env" i.env _ x2 x3
          (store-list_of "args" i.args _ x1 x2
            (store-text_of "command" i.command _ x0 x1 flag
              (λ e. ap (λ s. record x0 { command = s }) (sym e)) refl)
            (λ e. ap (λ l. record x1 { args = l }) (sym e)) refl)
          (λ e. ap (λ l. record x2 { env = l }) (sym e)) refl)
        (λ e. ap (λ s. record x3 { image = s }) (sym e)) refl)
      (λ e. ap (λ s. record x4 { name = s }) (sym e)) refl

abbrev rest_of : Bytes → Bytes
rest_of [] = []
rest_of (x ∷ xs) = xs

abbrev head_or : Bytes → ℕ
head_or [] = 0
head_or (x ∷ xs) = x

instruction_json-split :
    (i : OneTimeInstruction) (xs : Bytes)
    → instruction_json i ++ xs ≡ b'{' ∷ (separated (parts (members i)) ++ (b'}' ∷ xs))
instruction_json-split i xs =
    ap (λ l. l ++ xs) (instruction_json-members i)
    ∙ ap (λ l. b'{' ∷ l) (append_assoc (separated (parts (members i))) (b'}' ∷ []) xs)

pub instruction_json-Readable : Readable instruction_json
instruction_json-Readable a b xs ys e =
    let (p, q) =
      members-Readable (members a) (members b) xs ys
        (ap rest_of (sym (instruction_json-split a xs) ∙ e ∙ instruction_json-split b ys)) in
    (sym (instruction_of-members a) ∙ ap instruction_of p ∙ instruction_of-members b, q)

pub instruction_json-Opens : Opens b']' instruction_json
unfolding instruction_json
instruction_json-Opens i xs ys e = absurd (omega (arith, ap head_or e))
