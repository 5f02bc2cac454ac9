-- ===== src/Adapters/Guard.antt =====
-- adapters/approvalGuard.ts. A thrown error is a value.
use prism_spectra.Common.{
  Bool, true, false, not, ◌&&◌, ◌||◌, List, [], ◌∷◌, Option, none, some, String, if◌then◌else◌,
  ◌==◌, or_else, filter_by, is_empty,
}
use prism_spectra.Common.Text.{trim, is_blank}
use prism_spectra.Common.Text.Contains.{contains_folded}
use prism_spectra.Adapters.Types.{
  AdapterAction, AdapterCapability, AdapterContext, AdapterContract, AdapterDescriptor,
  AdapterError, AdapterResult, ApprovalContext, requirement_eq, risk_eq, kind_eq, unknown,
  read_only, local_write, external_draft, required, approval_requirement_for_risk,
  create_adapter_error, create_adapter_result, is_high_risk_risk_level, risk_name,
}
use Prim.Native.String

-- `validateAdapterContract` throws an `Error`, `ensureApprovalAllowed` an `AdapterGuardError`.
pub data Guarded (E : Type 0) : Type 0 where
  passed : Guarded E
  threw : E → Guarded E

pub data ContractError : Type 0 where
  id_is_required : ContractError
  must_have_name : (id : String) → ContractError
  must_declare_capability : (id : String) → ContractError
  capability_must_require : (id : String) → AdapterCapability → ContractError
  contract_must_require : (id : String) → ContractError

abbrev granted_in : Option ApprovalContext → Bool
granted_in none = false
granted_in (some a) = a.granted

unfoldable pub has_explicit_approval : AdapterContext → Bool
has_explicit_approval c = granted_in c.approval

-- `/publish|send|post|delete/i.test(operation)`
unfoldable pub is_publishing_like_operation : String → Bool
unfolding contains_folded
is_publishing_like_operation op =
    contains_folded "publish" op
    || contains_folded "send" op
    || contains_folded "post" op
    || contains_folded "delete" op

unfoldable pub is_allowed_without_approval : AdapterAction → Bool
is_allowed_without_approval a =
    a.risk_level == read_only || a.risk_level == local_write || a.risk_level == external_draft

unfoldable pub high_risk_capabilities : List AdapterCapability → List AdapterCapability
unfolding is_high_risk_risk_level
high_risk_capabilities = filter_by (λ c. is_high_risk_risk_level c.risk_level)

-- the loop over the capabilities of high risk, and the test behind it
unfoldable pub check_high_risk : AdapterContract → List AdapterCapability → Guarded ContractError
check_high_risk k [] = passed
check_high_risk k (c ∷ cs) =
    let rest = check_high_risk k cs in
    if not (c.approval_required == required)
    then threw (capability_must_require k.descriptor.id c)
    else rest

abbrev pub then_check : {E : Type 0} → Guarded E → Guarded E → Guarded E
then_check passed next = next
then_check (threw e) next = threw e

abbrev pub refuse_if : {E : Type 0} → Bool → E → Guarded E
refuse_if true e = threw e
refuse_if false e = passed

-- the tests of the capabilities, `high` being those of high risk
abbrev pub check_capabilities : AdapterContract → List AdapterCapability → Guarded ContractError
check_capabilities k high = then_check (check_high_risk k high) (
    refuse_if (not (is_empty high) && not (k.descriptor.approval_required == required))
      (contract_must_require k.descriptor.id))

unfoldable pub validate_adapter_contract : AdapterContract → Guarded ContractError
unfolding trim high_risk_capabilities check_high_risk
validate_adapter_contract k =
    then_check (refuse_if (is_blank (trim k.descriptor.id)) id_is_required) (
      then_check (refuse_if (is_blank (trim k.name)) (must_have_name k.descriptor.id)) (
        then_check (refuse_if (is_empty k.capabilities) (must_declare_capability k.descriptor.id))
          (check_capabilities k (high_risk_capabilities k.capabilities))))

abbrev unknown_risk_error : AdapterDescriptor → AdapterAction → AdapterError
unfolding create_adapter_error risk_name
unknown_risk_error adapter action =
    create_adapter_error adapter.id action.id "unknown_adapter_risk" (
      String.◌++◌ "Adapter " (
        String.◌++◌ adapter.id (
          String.◌++◌ " is unknown and cannot execute " (
            String.◌++◌ action.operation
              (String.◌++◌ " at risk level " (String.◌++◌ (risk_name action.risk_level) "."))))))

abbrev approval_required_error : AdapterDescriptor → AdapterAction → AdapterError
unfolding create_adapter_error risk_name
approval_required_error adapter action =
    create_adapter_error adapter.id action.id "approval_required" (
      String.◌++◌ "Adapter " (
        String.◌++◌ adapter.id (
          String.◌++◌ " requires explicit approval for " (
            String.◌++◌ action.operation
              (String.◌++◌ " (" (String.◌++◌ (risk_name action.risk_level) ")."))))))

unfoldable pub ensure_approval_allowed :
    AdapterDescriptor → AdapterContext → AdapterAction → Guarded AdapterError
unfolding is_allowed_without_approval approval_requirement_for_risk has_explicit_approval
    is_publishing_like_operation is_high_risk_risk_level unknown_risk_error approval_required_error
ensure_approval_allowed adapter context action =
    let approval_required =
      or_else action.approval_required (approval_requirement_for_risk action.risk_level) in
    let approved = has_explicit_approval context in
    let publishing_like = is_publishing_like_operation action.operation in
    if adapter.kind == unknown && not (is_allowed_without_approval action)
    then threw (unknown_risk_error adapter action)
    else if is_allowed_without_approval action
    then passed
    else if is_high_risk_risk_level action.risk_level
        || publishing_like
        || approval_required == required
    then (if not approved then threw (approval_required_error adapter action) else passed)
    else passed

unfoldable pub blocked_adapter_result :
    {T : Type 0} → AdapterDescriptor → AdapterAction → AdapterError → AdapterResult T
unfolding create_adapter_result
blocked_adapter_result adapter action error =
    create_adapter_result adapter action false true none (some error)

abbrev label_of_granted : ApprovalContext → String
label_of_granted a = if not a.granted then "unapproved" else elim a.approver [
  | none ↦ "approved"
  | some who ↦ if is_blank who then "approved" else String.◌++◌ "approved by " who
]

unfoldable pub approval_context_label : AdapterContext → String
approval_context_label c = elim c.approval [ none ↦ "unapproved" | some a ↦ label_of_granted a ]
