-- ===== src/Adapters/Types.antt =====
-- adapters/types.ts: the contract of an adapter. The contract's `execute` is modelled where an adapter
-- is. The `details` of an error, and the `metadata` and `checkedAt` of a result, are left out.
use prism_spectra.Common.{
  ◌≡◌, ◌↔◌, Bool, true, false, ◌||◌, List, Option, String, arith, Eq, ◌==◌, or_else,
}
use prism_spectra.Common.Json.{Fields}

pub data AdapterKind : Type 0 where
  local_model remote_model filesystem database git email calendar social_publishing media_tool
        search unknown :
      AdapterKind

abbrev pub kind_beq : AdapterKind → AdapterKind → Bool
kind_beq local_model local_model = true
kind_beq remote_model remote_model = true
kind_beq filesystem filesystem = true
kind_beq database database = true
kind_beq git git = true
kind_beq email email = true
kind_beq calendar calendar = true
kind_beq social_publishing social_publishing = true
kind_beq media_tool media_tool = true
kind_beq search search = true
kind_beq unknown unknown = true
kind_beq _ _ = false

pub kind_beq_iff : (a b : AdapterKind) → (kind_beq a b ≡ true) ↔ (a ≡ b)
kind_beq_iff a b = ground arith

instance abbrev pub kind_eq : Eq AdapterKind
kind_eq = record { beq = kind_beq; beq_iff = kind_beq_iff }

pub data AdapterRiskLevel : Type 0 where
  read_only local_write external_draft external_write destructive : AdapterRiskLevel

abbrev pub risk_beq : AdapterRiskLevel → AdapterRiskLevel → Bool
risk_beq read_only read_only = true
risk_beq local_write local_write = true
risk_beq external_draft external_draft = true
risk_beq external_write external_write = true
risk_beq destructive destructive = true
risk_beq _ _ = false

pub risk_beq_iff : (a b : AdapterRiskLevel) → (risk_beq a b ≡ true) ↔ (a ≡ b)
risk_beq_iff a b = ground arith

instance abbrev pub risk_eq : Eq AdapterRiskLevel
risk_eq = record { beq = risk_beq; beq_iff = risk_beq_iff }

pub data ApprovalRequirement : Type 0 where
  none recommended required : ApprovalRequirement

abbrev pub requirement_beq : ApprovalRequirement → ApprovalRequirement → Bool
requirement_beq none none = true
requirement_beq recommended recommended = true
requirement_beq required required = true
requirement_beq _ _ = false

pub requirement_beq_iff : (a b : ApprovalRequirement) → (requirement_beq a b ≡ true) ↔ (a ≡ b)
requirement_beq_iff a b = ground arith

instance abbrev pub requirement_eq : Eq ApprovalRequirement
requirement_eq = record { beq = requirement_beq; beq_iff = requirement_beq_iff }

pub data AdapterMode : Type 0 where
  mock real dry_run preview : AdapterMode

-- the string in the source
unfoldable pub risk_name : AdapterRiskLevel → String
risk_name read_only = "read_only"
risk_name local_write = "local_write"
risk_name external_draft = "external_draft"
risk_name external_write = "external_write"
risk_name destructive = "destructive"

pub record ApprovalContext : Type 0 where
  pub granted : Bool
  pub approver : Option String
  pub reason : Option String
  pub approved_at : Option String

pub record AdapterContext : Type 0 where
  pub request_id : Option String
  pub session_id : Option String
  pub actor : Option String
  pub origin : Option String
  pub mode : Option AdapterMode
  pub dry_run : Option Bool
  pub approval : Option ApprovalContext
  pub metadata : Option Fields

pub record AdapterCapability : Type 0 where
  pub id : String
  pub label : String
  pub kind : AdapterKind
  pub description : Option String
  pub risk_level : AdapterRiskLevel
  pub approval_required : ApprovalRequirement

pub record AdapterAction : Type 0 where
  pub id : String
  pub capability_id : String
  pub kind : AdapterKind
  pub operation : String
  pub input : Option Fields
  pub risk_level : AdapterRiskLevel
  pub approval_required : Option ApprovalRequirement

pub record AdapterError : Type 0 where
  pub code : String
  pub message : String
  pub adapter_id : String
  pub action_id : String

pub data HealthStatus : Type 0 where
  healthy degraded unhealthy : HealthStatus

pub record AdapterHealth : Type 0 where
  pub status : HealthStatus
  pub checked_at : String
  pub message : Option String

pub record AdapterDescriptor : Type 0 where
  pub id : String
  pub kind : AdapterKind
  pub mode : AdapterMode
  pub approval_required : ApprovalRequirement

pub record AdapterResult (T : Type 0) : Type 0 where
  pub adapter_id : String
  pub adapter_kind : AdapterKind
  pub adapter_mode : AdapterMode
  pub action_id : String
  pub capability_id : String
  pub operation : String
  pub risk_level : AdapterRiskLevel
  pub approval_required : ApprovalRequirement
  pub success : Bool
  pub blocked : Bool
  pub output : Option T
  pub error : Option AdapterError

-- What a `health` hook does when it is called.
pub data HealthAnswer : Type 0 where
  answers : AdapterHealth → HealthAnswer
  raises : String → HealthAnswer

pub record AdapterContract : Type 0 where
  pub descriptor : AdapterDescriptor
  pub name : String
  pub capabilities : List AdapterCapability
  pub health : Option HealthAnswer

unfoldable pub approval_requirement_for_risk : AdapterRiskLevel → ApprovalRequirement
approval_requirement_for_risk read_only = none
approval_requirement_for_risk local_write = recommended
approval_requirement_for_risk external_draft = recommended
approval_requirement_for_risk external_write = required
approval_requirement_for_risk destructive = required

unfoldable pub is_high_risk_risk_level : AdapterRiskLevel → Bool
is_high_risk_risk_level r = r == external_write || r == destructive

unfoldable pub is_external_risk_level : AdapterRiskLevel → Bool
unfolding is_high_risk_risk_level
is_external_risk_level r = r == external_draft || is_high_risk_risk_level r

unfoldable pub create_adapter_error : String → String → String → String → AdapterError
create_adapter_error adapter_id action_id code message = record {
  code = code;
  message = message;
  adapter_id = adapter_id;
  action_id = action_id;
}

unfoldable pub create_adapter_result :
    {T : Type 0}
    → AdapterDescriptor
    → AdapterAction
    → Bool
    → Bool
    → Option T
    → Option AdapterError
    → AdapterResult T
unfolding approval_requirement_for_risk
create_adapter_result adapter action success blocked output error = record {
  adapter_id = adapter.id;
  adapter_kind = adapter.kind;
  adapter_mode = adapter.mode;
  action_id = action.id;
  capability_id = action.capability_id;
  operation = action.operation;
  risk_level = action.risk_level;
  approval_required =
      or_else action.approval_required (approval_requirement_for_risk action.risk_level);
  success = success;
  blocked = blocked;
  output = output;
  error = error;
}
