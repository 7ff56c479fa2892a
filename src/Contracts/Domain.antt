-- ===== src/Contracts/Domain.antt =====
-- The domain types of src/core/contracts/domain.py.
use qaestro.Prelude.{ℕ, ℤ, String, List, Option, Dict}

pub data CiReadinessState : Type 0 where
  ready waiting_for_checks checks_failed : CiReadinessState

pub record CiObservation : Type 0 where
  pub workflow_name : String
  pub conclusion : String
  pub run_url : String
  pub failed_jobs : List String
  pub commit_sha : String
  pub logs_url : String

pub record CiHistoricalEvidence : Type 0 where
  pub head_sha : String
  pub observations : List CiObservation

pub record CiFeedbackContext : Type 0 where
  pub current_head_sha : String
  pub readiness : CiReadinessState
  pub current_observations : List CiObservation
  pub historical_evidence : List CiHistoricalEvidence
  pub pending_checks : List String

pub data RiskLevel : Type 0 where
  not_assessed low medium high critical : RiskLevel

-- `RiskLevel.value`
unfoldable pub risk_level_value : RiskLevel → String
risk_level_value not_assessed = "not_assessed"
risk_level_value low = "low"
risk_level_value medium = "medium"
risk_level_value high = "high"
risk_level_value critical = "critical"

pub data ActionType : Type 0 where
  run_tests run_linter type_check check_security verify_api_contract smoke_test custom : ActionType

-- `ActionType.value`
unfoldable pub action_type_value : ActionType → String
action_type_value run_tests = "run_tests"
action_type_value run_linter = "run_linter"
action_type_value type_check = "type_check"
action_type_value check_security = "check_security"
action_type_value verify_api_contract = "verify_api_contract"
action_type_value smoke_test = "smoke_test"
action_type_value custom = "custom"

pub record ImpactArea : Type 0 where
  pub module_name : String
  pub description : String
  pub risk_level : RiskLevel
  pub affected_files : List String

-- A value of `raw_diff_stats`.
pub data StatValue : Type 0 where
  number : ℤ → StatValue
  text : String → StatValue

pub record BehaviourImpact : Type 0 where
  pub summary : String
  pub areas : List ImpactArea
  pub overall_risk : RiskLevel
  pub raw_diff_stats : Dict String StatValue

pub record StrategyAction : Type 0 where
  pub action_type : ActionType
  pub description : String
  pub target : String
  pub priority : ℤ
  pub rationale : String

-- A finite `float`: `numerator / 2 ^ exponent`.
pub record Float : Type 0 where
  pub numerator : ℤ
  pub exponent : ℕ

pub record StrategyResult : Type 0 where
  pub actions : List StrategyAction
  pub reasoning : String
  pub confidence : Float
  pub knowledge_refs : List String

pub data ValidationOutcome : Type 0 where
  passed failed error skipped : ValidationOutcome

-- `ValidationOutcome.value`
unfoldable pub validation_outcome_value : ValidationOutcome → String
validation_outcome_value passed = "pass"
validation_outcome_value failed = "fail"
validation_outcome_value error = "error"
validation_outcome_value skipped = "skipped"

pub record ValidationLocation : Type 0 where
  pub path : String
  pub line : ℤ
  pub start_line : Option ℤ

pub record ValidationResult : Type 0 where
  pub action : StrategyAction
  pub outcome : ValidationOutcome
  pub details : String
  pub duration_seconds : Float
  pub artifacts : List String
  pub locations : List ValidationLocation

pub record QaReport : Type 0 where
  pub event_id : String
  pub repo_full_name : String
  pub pr_number : Option ℤ
  pub impact : BehaviourImpact
  pub strategy : StrategyResult
  pub validations : List ValidationResult
  pub summary_markdown : String
  pub ci_feedback : Option CiFeedbackContext
