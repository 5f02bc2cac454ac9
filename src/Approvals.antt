-- ===== src/Approvals.antt =====
-- approvals/queue.ts: the approval queue in memory, which writes to the event ledger that it was
-- given. The queue is a value that holds the ledger, and a method gives the next one.
mod Rows
pub mod Lifecycle
pub mod Audit
use prism_spectra.Common.{
  ℕ, ◌+◌, ◌≡◌, ◌↔◌, Bool, true, false, not, ◌&&◌, ◌||◌, List, [], ◌∷◌, ◌++◌, map, Option, none,
  some, String, if◌then◌else◌, ◌==◌, string_eq, ltb, or_else, includes, filter_by, find_by, first?,
  arith, Eq,
}
use prism_spectra.Common.Sort.{sort_by}
use prism_spectra.Common.Text.{trim, trimmed}
use prism_spectra.Common.Json.{Json, Fields, end, field, str, obj}
use prism_spectra.Capabilities.Types.{
  CapabilityApprovalClass, CapabilityCheckpointPolicy, approval_class_name, checkpoint_policy_name,
  approval_class_eq,
}
use prism_spectra.Events
use prism_spectra.Events.{
  Clock, PrismEventLedger, Filter, normalize_filter, matches_filter, agrees, slice, generated_id,
}
use prism_spectra.Events.Types.{
  PrismEventInput, PrismEventType, PrismEventSeverity, info, low, medium, approval_requested,
  approval_resolved,
}
use prism_spectra.Events.Types
use Prim.Native.String

pub data ApprovalStatus : Type 0 where
  pending approved rejected cancelled expired : ApprovalStatus

abbrev pub status_beq : ApprovalStatus → ApprovalStatus → Bool
status_beq pending pending = true
status_beq approved approved = true
status_beq rejected rejected = true
status_beq cancelled cancelled = true
status_beq expired expired = true
status_beq _ _ = false

pub status_beq_iff : (a b : ApprovalStatus) → (status_beq a b ≡ true) ↔ (a ≡ b)
status_beq_iff a b = ground arith

instance abbrev pub approval_status_eq : Eq ApprovalStatus
approval_status_eq = record { beq = status_beq; beq_iff = status_beq_iff }

pub data ApprovalDecisionStatus : Type 0 where
  approved rejected cancelled : ApprovalDecisionStatus

-- a decision's status where an approval's is wanted
unfoldable pub status_of : ApprovalDecisionStatus → ApprovalStatus
status_of ApprovalDecisionStatus.approved = ApprovalStatus.approved
status_of ApprovalDecisionStatus.rejected = ApprovalStatus.rejected
status_of ApprovalDecisionStatus.cancelled = ApprovalStatus.cancelled

unfoldable pub decision_name : ApprovalDecisionStatus → String
decision_name ApprovalDecisionStatus.approved = "approved"
decision_name ApprovalDecisionStatus.rejected = "rejected"
decision_name ApprovalDecisionStatus.cancelled = "cancelled"

pub data ApprovalLocalRemoteBoundary : Type 0 where
  local_only remote_optional remote_required : ApprovalLocalRemoteBoundary

unfoldable pub boundary_name : ApprovalLocalRemoteBoundary → String
boundary_name local_only = "local-only"
boundary_name remote_optional = "remote-optional"
boundary_name remote_required = "remote-required"

pub record ApprovalDecision : Type 0 where
  pub status : ApprovalDecisionStatus
  pub decided_at : String
  pub decided_by : String
  pub reason : Option String

pub record ApprovalRequest : Type 0 where
  pub id : String
  pub created_at : String
  pub updated_at : String
  pub status : ApprovalStatus
  pub title : String
  pub summary : String
  pub approval_class : CapabilityApprovalClass
  pub checkpoint_policy : CapabilityCheckpointPolicy
  pub related_capability_id : Option String
  pub related_artifact_ids : List String
  pub related_file_paths : List String
  pub preview_available : Bool
  pub preview_summary : Option String
  pub cli_equivalent : Option String
  pub risk_notes : List String
  pub local_remote_boundary : ApprovalLocalRemoteBoundary
  pub requested_by : String
  pub decision : Option ApprovalDecision

pub record ApprovalRequestInput : Type 0 where
  pub id : Option String
  pub title : String
  pub summary : String
  pub approval_class : CapabilityApprovalClass
  pub checkpoint_policy : CapabilityCheckpointPolicy
  pub related_capability_id : Option String
  pub related_artifact_ids : List String
  pub related_file_paths : List String
  pub preview_available : Bool
  pub preview_summary : Option String
  pub cli_equivalent : Option String
  pub risk_notes : List String
  pub local_remote_boundary : ApprovalLocalRemoteBoundary
  pub requested_by : String

pub record StoredApprovalRequest : Type 0 where
  pub seq : ℕ
  pub approval : ApprovalRequest

pub record ApprovalQueue : Type 0 where
  pub seq : ℕ
  pub approvals : List StoredApprovalRequest
  pub ledger : Option PrismEventLedger

pub data QueueError : Type 0 where
  approval_not_found approval_is_not_pending : String → QueueError

pub data Result (A : Type 0) : Type 0 where
  ok : A → Result A
  throw : QueueError → Result A

-- the constructor
abbrev pub new_approval_queue : Option PrismEventLedger → ApprovalQueue
new_approval_queue ledger = record { seq = 0; approvals = []; ledger = ledger }

unfoldable pub event_severity_for_decision : ApprovalDecisionStatus → PrismEventSeverity
event_severity_for_decision ApprovalDecisionStatus.approved = info
event_severity_for_decision ApprovalDecisionStatus.cancelled = low
event_severity_for_decision ApprovalDecisionStatus.rejected = medium

-- `this.ledger?.append(input)`
unfoldable pub append_to :
    Clock → PrismEventInput → Option PrismEventLedger → Option PrismEventLedger
unfolding Events.append
append_to now input none = none
append_to now input (some l) = some (Events.append now input l).1

-- the request that `requestApproval` makes
unfoldable pub approval_of : Clock → ApprovalRequestInput → ApprovalQueue → ApprovalRequest
unfolding trim trimmed generated_id
approval_of now input q = record {
  id = or_else (trimmed input.id) (generated_id "apr" now q.seq);
  created_at = now.iso;
  updated_at = now.iso;
  status = pending;
  title = trim input.title;
  summary = trim input.summary;
  approval_class = input.approval_class;
  checkpoint_policy = input.checkpoint_policy;
  related_capability_id = trimmed input.related_capability_id;
  related_artifact_ids = input.related_artifact_ids;
  related_file_paths = input.related_file_paths;
  preview_available = input.preview_available;
  preview_summary = trimmed input.preview_summary;
  cli_equivalent = trimmed input.cli_equivalent;
  risk_notes = input.risk_notes;
  local_remote_boundary = input.local_remote_boundary;
  requested_by = trim input.requested_by;
  decision = none;
}

-- the event of a new request
unfoldable pub requested_event : ApprovalRequest → PrismEventInput
unfolding approval_class_name checkpoint_policy_name boundary_name
requested_event a = record {
  id = none;
  time = none;
  type = approval_requested;
  summary = String.◌++◌ "Approval requested: " a.title;
  severity = info;
  source = Events.Types.PrismEventSource.approval;
  related_capability_id = a.related_capability_id;
  related_artifact_id = first? a.related_artifact_ids;
  related_conversation_id = none;
  related_checkpoint_id = none;
  related_approval_id = none;
  session_id = none;
  metadata = some (
      field "approvalId" (str a.id) (
        field "approvalClass" (str (approval_class_name a.approval_class)) (
          field "checkpointPolicy" (str (checkpoint_policy_name a.checkpoint_policy))
            (field "localRemoteBoundary" (str (boundary_name a.local_remote_boundary)) end))));
}

abbrev pub push_approval : ApprovalRequest → ApprovalQueue → ApprovalQueue
push_approval a q = record q {
  seq = q.seq + 1;
  approvals = q.approvals ++ record { seq = q.seq + 1; approval = a } ∷ [];
}

unfoldable pub request_approval :
    Clock → ApprovalRequestInput → ApprovalQueue → ApprovalRequest × ApprovalQueue
unfolding approval_of requested_event append_to
request_approval now input q =
    let made = approval_of now input q in
    (made, record (push_approval made q) { ledger = append_to now (requested_event made) q.ledger })

abbrev pub has_id : String → StoredApprovalRequest → Bool
has_id id row = row.approval.id == id

-- `find` of the row of an id
unfoldable pub find_row : String → ApprovalQueue → Option StoredApprovalRequest
find_row id q = find_by (has_id id) q.approvals

abbrev pub approval_in : Option StoredApprovalRequest → Option ApprovalRequest
approval_in none = none
approval_in (some row) = some row.approval

unfoldable pub get_approval : String → ApprovalQueue → Option ApprovalRequest
unfolding find_row
get_approval id q = approval_in (find_row id q)

-- the request with its decision
unfoldable pub decided : ApprovalDecision → ApprovalRequest → ApprovalRequest
unfolding status_of
decided d a = record a { status = status_of d.status; updated_at = d.decided_at; decision = some d }

-- `structuredClone(decision)` as JSON
unfoldable pub decision_fields : ApprovalDecision → Fields
unfolding decision_name
decision_fields d = field "status" (str (decision_name d.status)) (
    field "decidedAt" (str d.decided_at) (
      field "decidedBy" (str d.decided_by)
        (elim d.reason [ none ↦ end | some why ↦ field "reason" (str why) end ])))

-- the event of a resolved request
unfoldable pub resolved_event : ApprovalDecision → ApprovalRequest → PrismEventInput
unfolding event_severity_for_decision decision_fields decision_name
resolved_event d a = record {
  id = none;
  time = none;
  type = approval_resolved;
  summary =
      String.◌++◌ "Approval " (String.◌++◌ (decision_name d.status) (String.◌++◌ ": " a.title));
  severity = event_severity_for_decision d.status;
  source = Events.Types.PrismEventSource.approval;
  related_capability_id = a.related_capability_id;
  related_artifact_id = first? a.related_artifact_ids;
  related_conversation_id = none;
  related_checkpoint_id = none;
  related_approval_id = some a.id;
  session_id = none;
  metadata = some (field "approvalId" (str a.id) (field "decision" (obj (decision_fields d)) end));
}

-- `row.approval = …` of the first row of an id
unfoldable pub replace_row :
    String
    → (ApprovalRequest → ApprovalRequest)
    → List StoredApprovalRequest
    → List StoredApprovalRequest
replace_row id f [] = []
replace_row id f (row ∷ rows) =
    let later = row ∷ replace_row id f rows in
    if has_id id row then record row { approval = f row.approval } ∷ rows else later

unfoldable pub resolve_pending :
    Clock
    → String
    → ApprovalDecision
    → ApprovalQueue
    → ApprovalRequest
    → ApprovalRequest × ApprovalQueue
unfolding decided replace_row append_to resolved_event
resolve_pending now id d q a = (
  decided d a,
  record q {
    approvals = replace_row id (decided d) q.approvals;
    ledger = append_to now (resolved_event d (decided d a)) q.ledger;
  },
)

abbrev pub resolve_found :
    Clock
    → String
    → ApprovalDecision
    → ApprovalQueue
    → Option ApprovalRequest
    → Result (ApprovalRequest × ApprovalQueue)
resolve_found now id d q none = throw (approval_not_found id)
resolve_found now id d q (some a) =
    let resolved = ok (resolve_pending now id d q a) in
    if not (a.status == pending) then throw (approval_is_not_pending id) else resolved

unfoldable pub resolve_approval :
    Clock → String → ApprovalDecision → ApprovalQueue → Result (ApprovalRequest × ApprovalQueue)
unfolding get_approval resolve_pending
resolve_approval now id d q = resolve_found now id d q (get_approval id q)

pub record ApprovalListOptions : Type 0 where
  pub limit : Option ℕ
  pub status : Filter ApprovalStatus
  pub approval_class : Filter CapabilityApprovalClass
  pub related_capability_id : Option String
  pub related_artifact_id : Option String
  pub requested_by : Option String

abbrev includes_wanted : Option String → List String → Bool
includes_wanted none found = true
includes_wanted (some a) found = includes found a

-- the test of `listApprovals` on a request
unfoldable pub matches : ApprovalListOptions → ApprovalRequest → Bool
unfolding normalize_filter matches_filter agrees
matches o a =
    matches_filter a.status (normalize_filter o.status)
    && matches_filter a.approval_class (normalize_filter o.approval_class)
    && agrees o.related_capability_id a.related_capability_id
    && includes_wanted o.related_artifact_id a.related_artifact_ids
    && agrees o.requested_by (some a.requested_by)

-- The comparator of `listApprovals` is negative.
unfoldable pub newer_first :
    (String → String → Bool) → StoredApprovalRequest → StoredApprovalRequest → Bool
newer_first earlier l r =
    if l.approval.updated_at == r.approval.updated_at
    then ltb r.seq l.seq
    else earlier r.approval.updated_at l.approval.updated_at

unfoldable pub list_approvals :
    (String → String → Bool) → ApprovalListOptions → ApprovalQueue → List ApprovalRequest
unfolding matches newer_first sort_by
list_approvals earlier o q =
    map (λ row. row.approval)
      (slice o.limit
        (sort_by (newer_first earlier) (filter_by (λ row. matches o row.approval) q.approvals)))

unfoldable pub clear : ApprovalQueue → ApprovalQueue
clear q = record q { approvals = []; seq = 0 }
