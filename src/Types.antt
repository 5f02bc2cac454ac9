-- ===== src/Types.antt =====
-- src/types.ts: the vocabulary that the router, the ledger, the task graph and the engine share.
-- Dollar amounts are whole numbers of 10^-9 dollar, token counts and milliseconds whole numbers.
-- A confidence score is a whole number of hundredths. A message that the source writes with a
-- template is data: the constructor names the template, its fields are what the template inserts.
use prism_spectra.Common.{ℕ, ◌≡◌, ◌↔◌, Bool, true, false, List, [], ◌∷◌, Option, String, arith, Eq}
use prism_spectra.Common.Json.{Fields}

pub data ExecutorName : Type 0 where
  ollama free_tier gpt claude terminal : ExecutorName

abbrev pub ai_tiers : List ExecutorName
ai_tiers = ollama ∷ free_tier ∷ gpt ∷ claude ∷ []

abbrev pub executor_beq : ExecutorName → ExecutorName → Bool
executor_beq ollama ollama = true
executor_beq free_tier free_tier = true
executor_beq gpt gpt = true
executor_beq claude claude = true
executor_beq terminal terminal = true
executor_beq _ _ = false

pub executor_beq_iff : (a b : ExecutorName) → (executor_beq a b ≡ true) ↔ (a ≡ b)
executor_beq_iff a b = ground arith

instance abbrev pub executor_eq : Eq ExecutorName
executor_eq = record { beq = executor_beq; beq_iff = executor_beq_iff }

pub data DataBoundary : Type 0 where
  local remote_no_training remote_may_train : DataBoundary

unfoldable pub data_boundary_for : ExecutorName → DataBoundary
data_boundary_for ollama = local
data_boundary_for terminal = local
data_boundary_for free_tier = remote_may_train
data_boundary_for gpt = remote_no_training
data_boundary_for claude = remote_no_training

pub data NodeType : Type 0 where
  ui backend tests docs terminal : NodeType

abbrev pub node_type_beq : NodeType → NodeType → Bool
node_type_beq ui ui = true
node_type_beq backend backend = true
node_type_beq tests tests = true
node_type_beq docs docs = true
node_type_beq terminal terminal = true
node_type_beq _ _ = false

pub node_type_beq_iff : (a b : NodeType) → (node_type_beq a b ≡ true) ↔ (a ≡ b)
node_type_beq_iff a b = ground arith

instance abbrev pub node_type_eq : Eq NodeType
node_type_eq = record { beq = node_type_beq; beq_iff = node_type_beq_iff }

pub record TaskPacket : Type 0 where
  pub intent : String
  pub context : Fields
  pub constraints : List String
  pub dependencies : List String
  pub node_type : NodeType
  pub file_paths : Option (List String)

pub data NodeStatus : Type 0 where
  pending ready running success failed blocked : NodeStatus

abbrev pub status_beq : NodeStatus → NodeStatus → Bool
status_beq pending pending = true
status_beq ready ready = true
status_beq running running = true
status_beq success success = true
status_beq failed failed = true
status_beq blocked blocked = true
status_beq _ _ = false

pub status_beq_iff : (a b : NodeStatus) → (status_beq a b ≡ true) ↔ (a ≡ b)
status_beq_iff a b = ground arith

instance abbrev pub status_eq : Eq NodeStatus
status_eq = record { beq = status_beq; beq_iff = status_beq_iff }

pub data Op : Type 0 where
  write delete : Op

pub record FileEdit : Type 0 where
  pub path : String
  pub op : Op
  pub content : Option String

pub record Patch : Type 0 where
  pub edits : List FileEdit

pub data CacheHitKind : Type 0 where
  exact semantic : CacheHitKind

-- Why a tier was passed over: the reasons of memory/ledger.ts, and of a provider that is down.
pub data Refusal : Type 0 where
  unavailable : String → Refusal
  rpm_exhausted rpd_exhausted dollars_exhausted : ExecutorName → (used limit : ℕ) → Refusal

-- routing/router.ts
pub record ChainAttempt : Type 0 where
  pub provider : ExecutorName
  pub allowed : Bool
  pub reason : Option Refusal

pub data Message : Type 0 where
  text : String → Message
  no_executor : List ChainAttempt → Message
  and_then : Message → Message → Message
  patch_failed build_failed tests_failed : Message → Message

pub data FallbackReason : Type 0 where
  given : String → FallbackReason
  low_confidence : (score threshold : ℕ) → FallbackReason

pub record ExecutionResult : Type 0 where
  pub success : Bool
  pub output : String
  pub provider : ExecutorName
  pub tokens_in : ℕ
  pub tokens_out : ℕ
  pub cost : ℕ
  pub latency_ms : ℕ
  pub error : Option Message
  pub cache_hit : Bool
  pub cache_hit_kind : Option CacheHitKind
  pub confidence_score : Option ℕ
  pub fallback_reason : Option FallbackReason
  pub patch : Option Patch

pub record GraphNode : Type 0 where
  pub id : String
  pub packet : TaskPacket
  pub status : NodeStatus
  pub result : Option ExecutionResult
  pub dependents : List String

pub record NodeOutcome : Type 0 where
  pub project_id : String
  pub graph_id : String
  pub node_id : String
  pub node_type : NodeType
  pub intent : String
  pub provider : ExecutorName
  pub data_boundary : DataBoundary
  pub result : ExecutionResult
