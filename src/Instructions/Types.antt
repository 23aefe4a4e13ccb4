-- ===== src/Instructions/Types.antt =====
-- The two structs of instructions.go.
use turtles_etcd_restore.Base.{String, Bool, List}

-- `OneTimeInstruction`
pub record OneTimeInstruction : Type 0 where
  pub name : String
  pub image : String
  pub env : List String
  pub args : List String
  pub command : String
  pub save_output : Bool

-- `Plan`
pub record Plan : Type 0 where
  pub one_time_instructions : List OneTimeInstruction
