-- ===== src/Tools.antt =====
-- Tools, their stage policy and the runtime that executes them (src/runtime/stages.py and
-- src/runtime/tools). A tool's input `I` and output `O` are the program's; `W` is the world.
pub mod Policy
pub mod Runtime
pub mod Adapter
pub mod Exposure
pub mod Guarantees
pub mod WorkerPolicy
use qaestro.Prelude.{
  String, Bool, true, false, List, [], ◌∷◌, Option, Result, ◌≡◌, ◌↔◌, arith, Eq, refl,
}
use qaestro.Json.{Fields}
use qaestro.Prelude.Exec.{Exec}

pub data WorkflowStage : Type 0 where
  context triage analyzer strategy validator renderer output : WorkflowStage

abbrev pub stage_beq : WorkflowStage → WorkflowStage → Bool
stage_beq context context = true
stage_beq triage triage = true
stage_beq analyzer analyzer = true
stage_beq strategy strategy = true
stage_beq validator validator = true
stage_beq renderer renderer = true
stage_beq output output = true
stage_beq _ _ = false

pub stage_beq_iff : (a b : WorkflowStage) → (stage_beq a b ≡ true) ↔ (a ≡ b)
stage_beq_iff a b = ground arith

instance abbrev pub stage_eq : Eq WorkflowStage
stage_eq = record { beq = stage_beq; beq_iff = stage_beq_iff }

-- `WorkflowStage.value`
unfoldable pub stage_value : WorkflowStage → String
stage_value context = "context"
stage_value triage = "triage"
stage_value analyzer = "analyzer"
stage_value strategy = "strategy"
stage_value validator = "validator"
stage_value renderer = "renderer"
stage_value output = "output"

pub data ToolCapability : Type 0 where
  read write execute destructive : ToolCapability

abbrev pub capability_beq : ToolCapability → ToolCapability → Bool
capability_beq read read = true
capability_beq write write = true
capability_beq execute execute = true
capability_beq destructive destructive = true
capability_beq _ _ = false

pub capability_beq_iff : (a b : ToolCapability) → (capability_beq a b ≡ true) ↔ (a ≡ b)
capability_beq_iff a b = ground arith

instance abbrev pub capability_eq : Eq ToolCapability
capability_eq = record { beq = capability_beq; beq_iff = capability_beq_iff }

-- `ToolCapability.value`
unfoldable pub capability_value : ToolCapability → String
capability_value read = "read"
capability_value write = "write"
capability_value execute = "execute"
capability_value destructive = "destructive"

pub record ToolCall (I : Type 0) : Type 0 where
  pub stage : WorkflowStage
  pub name : String
  pub input : I
  pub correlation_id : String

pub record ToolResult (I O : Type 0) : Type 0 where
  pub call : ToolCall I
  pub ok : Bool
  pub output : Option O
  pub error : String

pub record ToolAuditEntry : Type 0 where
  pub stage : WorkflowStage
  pub name : String
  pub correlation_id : String
  pub ok : Bool
  pub error : String

-- A handler's exception is given by its text.
pub record ToolDefinition (I O W : Type 0) : Type 0 where
  pub name : String
  pub capabilities : List ToolCapability
  pub handler : ToolCall I → Exec String W O
  pub description : String
  pub input_schema : Option Fields
