-- ===== src/Approvals/Rows.antt =====
-- The rows of the queue of approvals/queue.ts: what is found under an id after a push and after the
-- replacement of a row.
use prism_spectra.Common.{
  ◌≡◌, ◌≢◌, refl, sym, inl, inr, List, [], ◌∷◌, ◌++◌, Option, none, some, String, if◌then◌else◌,
  ◌==◌, string_eq, find_by, arith, Bool-cases, eq_of_beq, beq-false_of_ne, first_some,
}
use prism_spectra.Approvals.{
  ApprovalRequest, StoredApprovalRequest, has_id, approval_in, replace_row, ApprovalDecision,
  decided,
}

abbrev pub lookup : String → List StoredApprovalRequest → Option ApprovalRequest
lookup id rows = approval_in (find_by (has_id id) rows)

pub lookup-push :
    (id : String) (rows : List StoredApprovalRequest) (row : StoredApprovalRequest)
    → lookup id (rows ++ row ∷ [])
      ≡ first_some (lookup id rows) (if has_id id row then some row.approval else none)
lookup-push id [] row = ground arith
lookup-push id (r ∷ rows) row = ground (arith, lookup-push id rows row)

-- A row behind the others hides none of them.
pub lookup-push_some :
    (id : String) (rows : List StoredApprovalRequest) (row : StoredApprovalRequest)
    (a : ApprovalRequest)
    → lookup id rows ≡ some a
    → lookup id (rows ++ row ∷ []) ≡ some a
lookup-push_some id rows row a h = ground (arith, lookup-push id rows row)

unfoldable pub decide_in : ApprovalDecision → Option ApprovalRequest → Option ApprovalRequest
unfolding decided
decide_in d none = none
decide_in d (some a) = some (decided d a)

pub lookup-replace_row_same :
    (id : String) (d : ApprovalDecision) (rows : List StoredApprovalRequest)
    → lookup id (replace_row id (decided d) rows) ≡ decide_in d (lookup id rows)
unfolding replace_row decided decide_in
lookup-replace_row_same id d [] = refl
lookup-replace_row_same id d (row ∷ rows) = ground (arith, lookup-replace_row_same id d rows)

pub lookup-replace_row_other :
    (id other : String) (d : ApprovalDecision) (rows : List StoredApprovalRequest)
    → id ≢ other
    → lookup id (replace_row other (decided d) rows) ≡ lookup id rows
unfolding replace_row decided
lookup-replace_row_other id other d [] ne = refl
lookup-replace_row_other id other d (row ∷ rows) ne = elim (Bool-cases (row.approval.id == other)) [
  | inl e ↦
      ground
        (arith, eq_of_beq row.approval.id other e, beq-false_of_ne other id (λ p. ne (sym p)), e)
  | inr e ↦ ground (arith, lookup-replace_row_other id other d rows ne, e)
]
