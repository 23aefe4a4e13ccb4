-- ===== src/Instructions/Lossless.antt =====
-- The JSON text of a plan determines the plan.
use turtles_etcd_restore.Base.{
  ℕ, zero, suc, arith, ◌≡◌, ◌↔◌, refl, sym, ap, ◌∙◌, List, [], ◌∷◌, ◌++◌,
}
use mathlib.Core.List.{append_assoc}
use turtles_etcd_restore.Go.Bytes.{Bytes}
use turtles_etcd_restore.Go.Outcome.{Outcome, ok}
use turtles_etcd_restore.Instructions.{marshal, instructions_as_json, OneTimeInstruction}
use turtles_etcd_restore.Instructions.Distinct.{json}
use turtles_etcd_restore.Instructions.Json.{separated, each, instruction_json}
use turtles_etcd_restore.Instructions.Members.{separated-Readable}
use turtles_etcd_restore.Instructions.Unmarshal.{instruction_json-Readable, instruction_json-Opens}

-- The text of a plan with instructions, from the bracket of their list on.
abbrev in_list : List OneTimeInstruction → Bytes
in_list l = separated (each instruction_json l) ++ (b']' ∷ b'}' ∷ [])

abbrev drop : ℕ → Bytes → Bytes
drop zero xs = xs
drop (suc n) [] = []
drop (suc n) (x ∷ xs) = drop n xs

marshal-split :
    (i : OneTimeInstruction) (l : List OneTimeInstruction)
    → drop 17 (json (i ∷ l)) ≡ in_list (i ∷ l)
unfolding marshal
marshal-split i l = append_assoc (separated (each instruction_json (i ∷ l))) (b']' ∷ []) (b'}' ∷ [])

abbrev second_byte : Bytes → ℕ
second_byte (x ∷ y ∷ xs) = y
second_byte _ = 0

pub marshal-inj : (a b : List OneTimeInstruction) → json a ≡ json b → a ≡ b
unfolding marshal
marshal-inj [] [] e = refl
marshal-inj [] (b ∷ k) e = absurd (omega (arith, ap second_byte e))
marshal-inj (a ∷ l) [] e = absurd (omega (arith, ap second_byte e))
marshal-inj (a ∷ l) (b ∷ k) e =
    (separated-Readable instruction_json b']' instruction_json-Readable instruction_json-Opens
      (λ h. absurd (omega (arith, h))) (a ∷ l) (b ∷ k) (b'}' ∷ []) (b'}' ∷ [])
      (sym (marshal-split a l) ∙ ap (drop 17) e ∙ marshal-split b k)).0

abbrev bytes_of : Outcome Bytes → Bytes
bytes_of (ok bytes) = bytes
bytes_of _ = []

-- Two lists of instructions have the same JSON exactly where they are the same list: the text that
-- is written into a plan secret tells all of the instructions, with all of their fields.
pub instructions_as_json_iff :
    (a b : List OneTimeInstruction) → (instructions_as_json a ≡ instructions_as_json b) ↔ (a ≡ b)
unfolding instructions_as_json
instructions_as_json_iff a b = (λ e. marshal-inj a b (ap bytes_of e), ap instructions_as_json)
