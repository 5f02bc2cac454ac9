-- ===== src/Examples/Approvals.antt =====
-- An event ledger with two events, and an approval that is requested, resolved and asked for again.
use prism_spectra.Common.{
  ℕ, ◌≤◌, ◌≡◌, ◌↔◌, refl, false, [], ◌∷◌, Option, none, some, String, map, length, In,
}
use prism_spectra.Events.{
  Clock, PrismEventLedger, PrismEventListOptions, any, one, new_event_ledger, list,
}
use prism_spectra.Events.Types.{
  PrismEvent, PrismEventSource, info, system_notice, job_started, PrismEventType,
}
use prism_spectra.Events.Matching.{IsWanted}
use prism_spectra.Events.Listing.{In-list, IsNewestFirst, list-IsNewestFirst}
use prism_spectra.Capabilities.Types.{CapabilityApprovalClass, CapabilityCheckpointPolicy}
use prism_spectra.Approvals.{
  Result, ApprovalRequest, ApprovalRequestInput, ApprovalQueue, ApprovalDecision,
  ApprovalDecisionStatus, ApprovalLocalRemoteBoundary, throw, approval_is_not_pending,
  new_approval_queue, request_approval, resolve_approval, resolve_pending, get_approval,
  approval_of,
}
use prism_spectra.Approvals.Lifecycle.{requests, resolves, here, next, resolve_approval-Once}
use prism_spectra.Approvals.Audit.{IsAudited, new_approval_queue-IsAudited}
use prism_spectra.Examples.Order.{precedes, precedes-IsTimeOrder}

abbrev clock : Clock
clock = record { ms = 40; iso = "2026-07-02T00:00:00.000Z" }

abbrev notice : String → PrismEventType → PrismEvent
notice time type = record {
  id = time;
  time = time;
  type = type;
  summary = "note";
  severity = info;
  source = PrismEventSource.system;
  related_capability_id = none;
  related_artifact_id = none;
  related_conversation_id = none;
  related_checkpoint_id = none;
  related_approval_id = none;
  session_id = none;
  metadata = none;
}

abbrev two_events : PrismEventLedger
two_events = record {
  seq = 2;
  events =
      record { seq = 1; event = notice "2026-07-01" system_notice }
      ∷ record { seq = 2; event = notice "2026-07-02" job_started }
      ∷ [];
  current_session_id = none;
}

abbrev notices : Option ℕ → PrismEventListOptions
notices limit = record {
  limit = limit;
  type = one system_notice;
  severity = any;
  related_capability_id = none;
  related_artifact_id = none;
  related_conversation_id = none;
  related_checkpoint_id = none;
  related_approval_id = none;
  session_id = none;
}

notices-listed : list precedes (notices none) two_events ≡ notice "2026-07-01" system_notice ∷ []
unfolding list
notices-listed = refl

In-list_example :
    In (notice "2026-07-01" system_notice) (list precedes (notices none) two_events) ↔ (
      In (notice "2026-07-01" system_notice) (map (λ row. row.event) two_events.events)
      × IsWanted (notices none) (notice "2026-07-01" system_notice))
In-list_example =
    In-list precedes (notices none) two_events (notice "2026-07-01" system_notice) refl

list-IsNewestFirst_example :
    IsNewestFirst precedes two_events
      (precedes-IsTimeOrder two_events)
      (list precedes (notices (some 1)) two_events)
    × ((limit : ℕ)
        → some 1 ≡ some limit
        → length (list precedes (notices (some 1)) two_events) ≤ limit)
list-IsNewestFirst_example =
    list-IsNewestFirst precedes two_events (precedes-IsTimeOrder two_events) (notices (some 1))

abbrev asked : ApprovalRequestInput
asked = record {
  id = some "a1";
  title = "Write the sidecar";
  summary = "one file";
  approval_class = CapabilityApprovalClass.write;
  checkpoint_policy = CapabilityCheckpointPolicy.before_write;
  related_capability_id = none;
  related_artifact_ids = [];
  related_file_paths = [];
  preview_available = false;
  preview_summary = none;
  cli_equivalent = none;
  risk_notes = [];
  local_remote_boundary = ApprovalLocalRemoteBoundary.local_only;
  requested_by = "cli";
}

abbrev approval : ApprovalDecision
approval = record {
  status = ApprovalDecisionStatus.approved;
  decided_at = "2026-07-03";
  decided_by = "owner";
  reason = none;
}

abbrev rejection : ApprovalDecision
rejection = record approval { status = ApprovalDecisionStatus.rejected }

abbrev empty_queue : ApprovalQueue
unfolding new_event_ledger
empty_queue = new_approval_queue (some (new_event_ledger none))

abbrev queue : ApprovalQueue
unfolding request_approval empty_queue
queue = (request_approval clock asked empty_queue).1

abbrev request : ApprovalRequest
unfolding approval_of empty_queue
request = approval_of clock asked empty_queue

abbrev resolved : ApprovalRequest × ApprovalQueue
unfolding resolve_pending queue request
resolved = resolve_pending clock "a1" approval queue request

queue-resolved : resolve_approval clock "a1" approval queue ≡ Result.ok (resolved.0, resolved.1)
unfolding resolve_approval queue request resolved request_approval empty_queue
queue-resolved = refl

resolve_approval-Once_example :
    (get_approval "a1" resolved.1 ≡ some resolved.0)
    × (resolve_approval clock "a1" rejection resolved.1 ≡ throw (approval_is_not_pending "a1"))
resolve_approval-Once_example =
    resolve_approval-Once clock clock "a1" approval rejection queue resolved.1 resolved.1 resolved.0
      queue-resolved here

new_approval_queue-IsAudited_example : IsAudited resolved.1
unfolding request_approval queue resolved
new_approval_queue-IsAudited_example = new_approval_queue-IsAudited none resolved.1 (
    next (next here (requests clock asked refl))
      (resolves clock "a1" approval resolved.0 queue-resolved))
