-- ===== src/Approvals/Lifecycle.antt =====
-- approvals/queue.ts: the life of a request, over any sequence of steps of the queue other than
-- `clear`.
use prism_spectra.Common.{
  ◌≡◌, ◌≢◌, ◌⊎◌, refl, sym, ap, ◌∙◌, inl, inr, false, some, String, ◌==◌, string_eq, arith,
  Bool-cases, Option-cases, eq_of_beq, some_inj, ne_of_beq, subst, beq-false_of_ne, Bool, ◌||◌, ◌+◌,
}
use prism_spectra.Events.{Clock}
use prism_spectra.Events.Types.{
  PrismEventInput, PrismEventType, approval_requested, approval_resolved, type_eq,
}
use prism_spectra.Approvals.{
  ApprovalRequest, ApprovalRequestInput, ApprovalQueue, ApprovalDecision, ApprovalDecisionStatus,
  approval_status_eq, pending, ok, throw, approval_not_found, approval_is_not_pending, get_approval,
  find_row, request_approval, resolve_approval, resolve_pending, resolve_found, decided, status_of,
  replace_row, approval_of, append_to,
}
use prism_spectra.Approvals.Rows.{
  lookup, lookup-push_some, decide_in, lookup-replace_row_same, lookup-replace_row_other,
}

abbrev pub is_approval_event : PrismEventType → Bool
is_approval_event t = t == approval_requested || t == approval_resolved

-- One call: a request, a resolution that does not throw, or an append of another part to the ledger.
pub data Step (q : ApprovalQueue) (q' : ApprovalQueue) : Type 0 where
  requests :
      (now : Clock) (input : ApprovalRequestInput)
      → q' ≡ (request_approval now input q).1
      → Step q q'
  resolves :
      (now : Clock) (id : String) (d : ApprovalDecision) (a : ApprovalRequest)
      → resolve_approval now id d q ≡ ok (a, q')
      → Step q q'
  appends :
      (now : Clock) (input : PrismEventInput)
      → is_approval_event input.type ≡ false
      → q' ≡ record q { ledger = append_to now input q.ledger }
      → Step q q'

pub data Reach (q : ApprovalQueue) : ApprovalQueue → Type 0 where
  here : Reach q q
  next : {t u : ApprovalQueue} → Reach q t → Step t u → Reach q u

pub status_of-not_pending : (d : ApprovalDecision) → status_of d.status ≢ pending
unfolding status_of
status_of-not_pending d h =
    elim (d.status) as (λ s. status_of s ≡ pending → ⊥) [
      | ApprovalDecisionStatus.approved ↦ λ e. cc
      | ApprovalDecisionStatus.rejected ↦ λ e. cc
      | ApprovalDecisionStatus.cancelled ↦ λ e. cc
    ]
      h

resolve_found-some :
    (now : Clock) (id : String) (d : ApprovalDecision) (q : ApprovalQueue) (a : ApprovalRequest)
    (r : ApprovalRequest × ApprovalQueue)
    → resolve_found now id d q (some a) ≡ ok r
    → (a.status ≡ pending) × (r ≡ resolve_pending now id d q a)
resolve_found-some now id d q a r h = elim (Bool-cases (a.status == pending)) [
  | inl e ↦ (eq_of_beq a.status pending e, ground (arith, e))
  | inr e ↦ ground (arith, e)
]

-- `resolveApproval` returns for a pending request alone.
pub resolve_approval-ok :
    (now : Clock) (id : String) (d : ApprovalDecision) (q : ApprovalQueue)
    (r : ApprovalRequest × ApprovalQueue)
    → resolve_approval now id d q ≡ ok r
    → (a : ApprovalRequest) × (get_approval id q ≡ some a)
      × (a.status ≡ pending)
      × (r ≡ resolve_pending now id d q a)
unfolding resolve_approval get_approval
resolve_approval-ok now id d q r h = elim (Option-cases (get_approval id q)) [
  | inl e ↦
      let never : throw (approval_not_found id) ≡ ok r =
        ap (resolve_found now id d q) (sym e) ∙ h in
      cc
  | inr (a, e) ↦
      let (p, m) = resolve_found-some now id d q a r (ap (resolve_found now id d q) (sym e) ∙ h) in
      (a, e, p, m)
]

-- What an id that holds a request holds later on: the same request, or its decision.
abbrev pub IsLater : ApprovalRequest → ApprovalRequest → Type 0
IsLater a a' = (a' ≡ a) ⊎ ((d : ApprovalDecision) × (a.status ≡ pending) × (a' ≡ decided d a))

replaced-IsLater :
    (q : ApprovalQueue) (id other : String) (d : ApprovalDecision) (a b : ApprovalRequest)
    → get_approval id q ≡ some a
    → get_approval other q ≡ some b
    → b.status ≡ pending
    → (a' : ApprovalRequest) × (lookup id (replace_row other (decided d) q.approvals) ≡ some a')
      × IsLater a a'
unfolding get_approval find_row decide_in decided
replaced-IsLater q id other d a b h k p = elim (Bool-cases (id == other)) [
  | inl e ↦
      let same = eq_of_beq id other e in
      let a_is_b = some_inj (sym h ∙ ap (λ i. lookup i q.approvals) same ∙ k) in
      (
        decided d a,
        ap (λ i. lookup id (replace_row i (decided d) q.approvals)) (sym same)
            ∙ lookup-replace_row_same id d q.approvals
            ∙ ap (decide_in d) h,
        inr (d, ap (λ x. x.status) a_is_b ∙ p, refl),
      )
  | inr e ↦
      (a, lookup-replace_row_other id other d q.approvals (ne_of_beq id other e) ∙ h, inl refl)
]

Step-IsLater :
    (q q' : ApprovalQueue) (id : String) (a : ApprovalRequest)
    → Step q q'
    → get_approval id q ≡ some a
    → (a' : ApprovalRequest) × (get_approval id q' ≡ some a') × IsLater a a'
unfolding get_approval request_approval find_row resolve_pending
Step-IsLater q q' id a (requests now input e) h = (
  a,
  ap (get_approval id) e
      ∙ lookup-push_some id q.approvals
          (record { seq = q.seq + 1; approval = approval_of now input q }) a h,
  inl refl,
)
Step-IsLater q q' id a (appends now input n e) h = (a, ap (get_approval id) e ∙ h, inl refl)
Step-IsLater q q' id a (resolves now other d a' e) h =
    let (b, k, p, r) = resolve_approval-ok now other d q (a', q') e in
    let (x, m, later) = replaced-IsLater q id other d a b h k p in
    (x, ap (λ u. get_approval id u.1) r ∙ m, later)

IsLater-trans : (a b c : ApprovalRequest) → IsLater a b → IsLater b c → IsLater a c
unfolding decided status_of
IsLater-trans a b c (inl e) later = subst (λ x. IsLater x c) e later
IsLater-trans a b c (inr (d, p, e)) (inl k) = inr (d, p, k ∙ e)
IsLater-trans a b c (inr (d, p, e)) (inr (d', p', k)) =
    elim (status_of-not_pending d (sym (ap (λ x. x.status) e) ∙ p')) [ ]

pub get_approval-IsLater :
    (q q' : ApprovalQueue) (id : String) (a : ApprovalRequest)
    → Reach q q'
    → get_approval id q ≡ some a
    → (a' : ApprovalRequest) × (get_approval id q' ≡ some a') × IsLater a a'
get_approval-IsLater q q' id a here h = (a, h, inl refl)
get_approval-IsLater q q' id a (next {t = t} r s) h =
    let (b, k, l) = get_approval-IsLater q t id a r h in
    let (c, m, l') = Step-IsLater t q' id b s k in (c, m, IsLater-trans a b c l l')

get_approval-resolved :
    (now : Clock) (id : String) (d : ApprovalDecision) (q q' : ApprovalQueue) (a : ApprovalRequest)
    → resolve_approval now id d q ≡ ok (a, q')
    → (get_approval id q' ≡ some a) × (a.status ≢ pending)
unfolding get_approval find_row resolve_pending decided decide_in
get_approval-resolved now id d q q' a h =
    let (b, found, p, r) = resolve_approval-ok now id d q (a, q') h in
    (
      ap (λ u. get_approval id u.1) r
          ∙ lookup-replace_row_same id d q.approvals
          ∙ ap (decide_in d) found
          ∙ ap (λ u. some u.0) (sym r),
      (λ e. status_of-not_pending d (sym (ap (λ u. u.0.status) r) ∙ e)),
    )

-- Once `resolveApproval` has returned, then after any further steps other than `clear` the request
-- is found as it was returned, and to resolve it again throws that it is not pending.
pub resolve_approval-Once :
    (now now' : Clock) (id : String) (d d' : ApprovalDecision) (q q' q'' : ApprovalQueue)
    (a : ApprovalRequest)
    → resolve_approval now id d q ≡ ok (a, q')
    → Reach q' q''
    → (get_approval id q'' ≡ some a)
      × (resolve_approval now' id d' q'' ≡ throw (approval_is_not_pending id))
unfolding resolve_approval
resolve_approval-Once now now' id d d' q q' q'' a h r =
    let (found, settled) = get_approval-resolved now id d q q' a h in
    let (a', later_found, later) = get_approval-IsLater q' q'' id a r found in
    let same : a' ≡ a = elim later [ inl e ↦ e | inr (_, p, _) ↦ elim (settled p) [ ] ] in
    let still = later_found ∙ ap some same in
    (
      still,
      ap (resolve_found now' id d' q'') still
          ∙ ground (arith, beq-false_of_ne a.status pending settled),
    )
