-- ===== src/Approvals/Audit.antt =====
-- approvals/queue.ts with events/ledger.ts: what the ledger shows of the queue.
use prism_spectra.Common.{
  ℕ, ◌+◌, ◌≡◌, refl, sym, ap, ◌∙◌, inl, inr, Bool, true, not, List, [], ◌∷◌, ◌++◌, Option, none,
  some, String, if◌then◌else◌, ◌==◌, string_eq, filter_by, length, length-append, arith, Bool-cases,
  some_inj,
}
use prism_spectra.Events.{
  Clock, PrismEventLedger, StoredPrismEvent, new_event_ledger, push_event, event_of,
}
use prism_spectra.Events
use prism_spectra.Events.Types.{
  PrismEventType, PrismEventInput, type_eq, approval_requested, approval_resolved,
}
use prism_spectra.Approvals.{
  ApprovalRequest, ApprovalQueue, StoredApprovalRequest, ApprovalDecision, approval_status_eq,
  pending, decided, has_id, replace_row, append_to, new_approval_queue, approval_of,
  requested_event, resolved_event, request_approval, resolve_pending, get_approval, find_row,
}
use prism_spectra.Approvals.Rows.{lookup}
use prism_spectra.Approvals.Lifecycle.{
  Step, requests, resolves, appends, Reach, here, next, resolve_approval-ok, status_of-not_pending,
}

abbrev count {ℓ} : {A : Type ℓ} → (A → Bool) → List A → ℕ
count p xs = length (filter_by p xs)

abbrev one_if : Bool → ℕ
one_if b = if b then 1 else 0

count-push {ℓ} :
    {A : Type ℓ} (p : A → Bool) (xs : List A) (x : A)
    → count p (xs ++ x ∷ []) ≡ count p xs + one_if (p x)
count-push p [] x = ground arith
count-push p (y ∷ xs) x = ground (arith, count-push p xs x)

abbrev is_event : PrismEventType → StoredPrismEvent → Bool
is_event t row = row.event.type == t

abbrev is_decided : StoredApprovalRequest → Bool
is_decided row = not (row.approval.status == pending)

-- As many events of a request as there are requests, and of a decision as there are decided ones.
abbrev pub IsAudited : ApprovalQueue → Type 0
IsAudited q =
    (l : PrismEventLedger)
    → q.ledger ≡ some l
    → (count (is_event approval_requested) l.events ≡ length q.approvals)
      × (count (is_event approval_resolved) l.events ≡ count is_decided q.approvals)

is_decided-decided :
    (d : ApprovalDecision) (row : StoredApprovalRequest)
    → is_decided (record row { approval = decided d row.approval }) ≡ true
unfolding decided
is_decided-decided d row = ground (arith, status_of-not_pending d)

length-replace_row :
    (id : String) (d : ApprovalDecision) (rows : List StoredApprovalRequest)
    → length (replace_row id (decided d) rows) ≡ length rows
unfolding replace_row
length-replace_row id d [] = refl
length-replace_row id d (row ∷ rows) = ground (arith, length-replace_row id d rows)

count-replace_row :
    (id : String) (d : ApprovalDecision) (rows : List StoredApprovalRequest) (a : ApprovalRequest)
    → lookup id rows ≡ some a
    → a.status ≡ pending
    → count is_decided (replace_row id (decided d) rows) ≡ count is_decided rows + 1
unfolding replace_row
count-replace_row id d [] a h p = cc
count-replace_row id d (row ∷ rows) a h p = elim (Bool-cases (has_id id row)) [
  | inl e ↦ ground (arith, is_decided-decided d row, e)
  | inr e ↦ ground (arith, count-replace_row id d rows a, e)
]

-- What an append adds to the count of a type.
append_to-count :
    (now : Clock) (input : PrismEventInput) (o : Option PrismEventLedger) (l' : PrismEventLedger)
    → append_to now input o ≡ some l'
    → (l : PrismEventLedger) × (o ≡ some l)
      × ((t : PrismEventType)
          → count (is_event t) l'.events ≡ count (is_event t) l.events + one_if (input.type == t))
unfolding append_to Events.append event_of
append_to-count now input none l' h = cc
append_to-count now input (some l) l' h = (
  l,
  refl,
  (λ t.
      ap (λ k. count (is_event t) k.events) (sym (some_inj h))
      ∙ count-push (is_event t) l.events
          (record { seq = l.seq + 1; event = event_of now input l })),
)

IsAudited-append :
    (now : Clock) (input : PrismEventInput) (q q' : ApprovalQueue)
    → q'.ledger ≡ append_to now input q.ledger
    → length q'.approvals ≡ length q.approvals + one_if (input.type == approval_requested)
    → count is_decided q'.approvals
      ≡ count is_decided q.approvals + one_if (input.type == approval_resolved)
    → IsAudited q
    → IsAudited q'
IsAudited-append now input q q' e rows decisions h l' k =
    let (l, p, counts) = append_to-count now input q.ledger l' (sym e ∙ k) in
    let (requested, resolved) = h l p in
    (
      omega (arith, counts approval_requested, requested, rows),
      omega (arith, counts approval_resolved, resolved, decisions),
    )

Step-IsAudited : (q q' : ApprovalQueue) → Step q q' → IsAudited q → IsAudited q'
unfolding request_approval approval_of requested_event resolve_pending resolved_event find_row
    get_approval
Step-IsAudited q q' (requests now input e) =
    let made = approval_of now input q in
    let row : StoredApprovalRequest = record { seq = q.seq + 1; approval = made } in
    IsAudited-append now (requested_event made) q q' (ap (λ u. u.ledger) e)
      (ap (λ u. length u.approvals) e ∙ length-append q.approvals (row ∷ []))
      (ap (λ u. count is_decided u.approvals) e ∙ count-push is_decided q.approvals row)
Step-IsAudited q q' (appends now input n e) =
    IsAudited-append now input q q' (ap (λ u. u.ledger) e)
      (ground (arith, ap (λ u. length u.approvals) e, n))
      (ground (arith, ap (λ u. count is_decided u.approvals) e, n))
Step-IsAudited q q' (resolves now id d a' e) =
    let (a, found, p, r) = resolve_approval-ok now id d q (a', q') e in
    IsAudited-append now (resolved_event d (decided d a)) q q' (ap (λ u. u.1.ledger) r)
      (ground (arith, ap (λ u. length u.1.approvals) r, length-replace_row id d q.approvals))
      (ap (λ u. count is_decided u.1.approvals) r ∙ count-replace_row id d q.approvals a found p)

Reach-IsAudited : (q q' : ApprovalQueue) → Reach q q' → IsAudited q → IsAudited q'
Reach-IsAudited q q' here h = h
Reach-IsAudited q q' (next {t = t} r s) h = Step-IsAudited t q' s (Reach-IsAudited q t r h)

-- A queue that began empty with an empty ledger, and that was not cleared: the ledger has as many
-- events of a request as the queue has requests, and as many of a decision as it has decided ones.
-- Other parts may append events of other types.
pub new_approval_queue-IsAudited :
    (session_id : Option String) (q : ApprovalQueue)
    → Reach (new_approval_queue (some (new_event_ledger session_id))) q
    → IsAudited q
unfolding new_event_ledger
new_approval_queue-IsAudited session_id q r =
    Reach-IsAudited (new_approval_queue (some (new_event_ledger session_id))) q r (λ l k.
      let e = sym (some_inj k) in
      (
        ap (λ u. count (is_event approval_requested) u.events) e,
        ap (λ u. count (is_event approval_resolved) u.events) e,
      ))
