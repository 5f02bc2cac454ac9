-- ===== src/Adapters/Approval.antt =====
-- adapters/approvalGuard.ts and adapters/registry.ts: which actions the guard lets pass, and what every
-- registered contract declares.
use prism_spectra.Common.{
  ◌≡◌, ◌≢◌, ◌⊎◌, ◌↔◌, refl, sym, ap, ◌∙◌, subst, inl, inr, Bool, true, false, not, ◌&&◌, ◌||◌, List,
  [], ◌∷◌, some, String, if◌then◌else◌, ◌==◌, string_eq, is_empty, All, In, arith, Bool-cases,
  eq_of_beq, ne_of_beq, beq-false_of_ne,
}
use prism_spectra.Common.Text.{trim, is_blank}
use prism_spectra.Adapters.Registry.{registered, registered_if, set, register_adapter, get_adapter}
use prism_spectra.Common.Members.{In-filter_by}
use prism_spectra.Adapters.Types.{
  AdapterAction, AdapterCapability, AdapterContext, AdapterContract, AdapterDescriptor,
  AdapterRiskLevel, requirement_eq, kind_eq, risk_eq, unknown, required, read_only, local_write,
  external_draft, external_write, destructive, is_high_risk_risk_level,
}
use prism_spectra.Adapters.Guard.{
  check_capabilities, refuse_if, ContractError, contract_must_require, must_declare_capability,
  must_have_name, id_is_required, check_high_risk, then_check, validate_adapter_contract,
  high_risk_capabilities, Guarded, passed, threw, ensure_approval_allowed, has_explicit_approval,
  is_allowed_without_approval,
}

-- Every level is low or high.
risk-split :
    (r : AdapterRiskLevel)
    → (r == read_only || r == local_write || r == external_draft) ≡ not (is_high_risk_risk_level r)
unfolding is_high_risk_risk_level
risk-split read_only = refl
risk-split local_write = refl
risk-split external_draft = refl
risk-split external_write = refl
risk-split destructive = refl

-- The guard lets an action pass if and only if its risk is not high, or the adapter's kind is known
-- and the context grants approval.
pub ensure_approval_allowed-passed_iff :
    (d : AdapterDescriptor) (c : AdapterContext) (a : AdapterAction)
    → (ensure_approval_allowed d c a ≡ passed) ↔ (
        (is_high_risk_risk_level a.risk_level ≡ false)
        ⊎ ((d.kind ≢ unknown) × (has_explicit_approval c ≡ true)))
unfolding ensure_approval_allowed is_allowed_without_approval
ensure_approval_allowed-passed_iff d c a =
    elim (Bool-cases (is_high_risk_risk_level a.risk_level)) [
      | inl e ↦ (
        (λ h. elim (Bool-cases (d.kind == unknown)) [
          | inl u ↦ ground (arith, risk-split a.risk_level, u, e, h)
          | inr u ↦ elim (Bool-cases (has_explicit_approval c)) [
            | inl g ↦ inr (ne_of_beq d.kind unknown u, g)
            | inr g ↦ ground (arith, risk-split a.risk_level, u, e, h, g)
          ]
        ]),
        (λ h. elim h [
          | inl low ↦ let never : true ≡ false = sym e ∙ low in cc
          | inr (known, g) ↦
              ground (arith, risk-split a.risk_level, beq-false_of_ne d.kind unknown known, e, g)
        ]),
      )
      | inr e ↦ ((λ _. inl e), (λ _. ground (arith, risk-split a.risk_level, e)))
    ]

-- What a contract of the registry declares: each capability of high risk requires approval, and
-- then so does the contract.
abbrev pub IsDeclared : AdapterContract → Type 0
IsDeclared k =
    (c : AdapterCapability)
    → In c k.capabilities
    → is_high_risk_risk_level c.risk_level ≡ true
    → (c.approval_required ≡ required) × (k.descriptor.approval_required ≡ required)

check_high_risk-passed :
    (k : AdapterContract) (cs : List AdapterCapability)
    → check_high_risk k cs ≡ passed
    → (c : AdapterCapability) → In c cs
    → c.approval_required ≡ required
unfolding check_high_risk
check_high_risk-passed k [] h c m = elim m [ ]
check_high_risk-passed k (c' ∷ cs) h c m = elim (Bool-cases (c'.approval_required == required)) [
  | inl e ↦ elim m [
    | inl p ↦ ap (λ x. x.approval_required) p ∙ eq_of_beq c'.approval_required required e
    | inr i ↦ check_high_risk-passed k cs (ground (arith, h, e)) c i
  ]
  | inr e ↦ ground (arith, h, e)
]

then_check-passed :
    {E : Type 0} (first next : Guarded E)
    → then_check first next ≡ passed
    → (first ≡ passed) × (next ≡ passed)
then_check-passed passed next h = (refl, h)
then_check-passed (threw e) next h = cc

-- What the tests in front leave is passed too.
second_passed :
    {E : Type 0} (b : Bool) (e : E) (next : Guarded E)
    → then_check (refuse_if b e) next ≡ passed
    → next ≡ passed
second_passed b e next h = (then_check-passed (refuse_if b e) next h).1

In-not_empty : {A : Type 0} (xs : List A) (a : A) → In a xs → is_empty xs ≡ false
In-not_empty [] a m = elim m [ ]
In-not_empty (x ∷ xs) a m = refl

contract_requires :
    (e r : Bool) (k : ContractError) → refuse_if (not e && not r) k ≡ passed → e ≡ false → r ≡ true
contract_requires e true k h p = refl
contract_requires true false k h p = cc
contract_requires false false k h p = cc

check_capabilities-IsDeclared :
    (k : AdapterContract)
    → check_capabilities k (high_risk_capabilities k.capabilities) ≡ passed
    → IsDeclared k
unfolding high_risk_capabilities
check_capabilities-IsDeclared k h c m high =
    let kept =
      (In-filter_by (λ x. is_high_risk_risk_level x.risk_level) k.capabilities c).1 (m, high) in
    let risky = high_risk_capabilities k.capabilities in
    let contract : Guarded ContractError =
      refuse_if (not (is_empty risky) && not (k.descriptor.approval_required == required))
        (contract_must_require k.descriptor.id) in
    let (each, last) = then_check-passed (check_high_risk k risky) contract h in
    (
      check_high_risk-passed k risky each c kept,
      eq_of_beq k.descriptor.approval_required required (
          contract_requires (is_empty risky) (k.descriptor.approval_required == required)
            (contract_must_require k.descriptor.id) last (In-not_empty risky c kept)),
    )

validate_adapter_contract-IsDeclared :
    (k : AdapterContract) → validate_adapter_contract k ≡ passed → IsDeclared k
unfolding validate_adapter_contract
validate_adapter_contract-IsDeclared k h =
    let capabilities = check_capabilities k (high_risk_capabilities k.capabilities) in
    let no_capability = must_declare_capability k.descriptor.id in
    let rest = then_check (refuse_if (is_empty k.capabilities) no_capability) capabilities in
    let named =
      then_check (refuse_if (is_blank (trim k.name)) (must_have_name k.descriptor.id)) rest in
    let h1 = second_passed (is_blank (trim k.descriptor.id)) id_is_required named h in
    let h2 = second_passed (is_blank (trim k.name)) (must_have_name k.descriptor.id) rest h1 in
    check_capabilities-IsDeclared k
      (second_passed (is_empty k.capabilities) no_capability capabilities h2)

-- The registries that registrations make.
pub data Reachable : List AdapterContract → Type 0 where
  empty : Reachable []
  registering :
      {ks ks' : List AdapterContract} (a : AdapterContract)
      → Reachable ks
      → register_adapter a ks ≡ registered ks'
      → Reachable ks'

registered_if-registered :
    (g : Guarded ContractError) (next ks' : List AdapterContract)
    → registered_if g next ≡ registered ks'
    → (g ≡ passed) × (ks' ≡ next)
registered_if-registered passed next ks' h = (refl, cc)
registered_if-registered (threw e) next ks' h = cc

register_adapter-registered :
    (a : AdapterContract) (ks ks' : List AdapterContract)
    → register_adapter a ks ≡ registered ks'
    → (validate_adapter_contract a ≡ passed) × (ks' ≡ set a ks)
unfolding register_adapter
register_adapter-registered a ks ks' h =
    registered_if-registered (validate_adapter_contract a) (set a ks) ks' h

set-All :
    (P : AdapterContract → Type 0) (a : AdapterContract) (ks : List AdapterContract)
    → P a
    → All P ks
    → All P (set a ks)
unfolding set
set-All P a [] p h = (p, tt)
set-All P a (k ∷ ks) p (q, h) = elim (Bool-cases (k.descriptor.id == a.descriptor.id)) [
  | inl e ↦ rw e (p, h)
  | inr e ↦ rw e (q, set-All P a ks p h)
]

get_adapter-set :
    (id : String) (a : AdapterContract) (ks : List AdapterContract)
    → get_adapter id (set a ks) ≡ (if a.descriptor.id == id then some a else get_adapter id ks)
unfolding get_adapter set
get_adapter-set id a [] = refl
get_adapter-set id a (k ∷ ks) = elim (Bool-cases (k.descriptor.id == a.descriptor.id)) [
  | inl e ↦ ground (arith, eq_of_beq k.descriptor.id a.descriptor.id e, e)
  | inr e ↦ elim (Bool-cases (k.descriptor.id == id)) [
    | inl f ↦ ground (
      arith,
      get_adapter-set id a ks,
      e,
      f,
      beq-false_of_ne a.descriptor.id id (λ p.
          ne_of_beq k.descriptor.id a.descriptor.id e (eq_of_beq k.descriptor.id id f ∙ sym p)),
    )
    | inr f ↦ ground (arith, get_adapter-set id a ks, e, f)
  ]
]

Reachable-IsDeclared : (ks : List AdapterContract) → Reachable ks → All IsDeclared ks
Reachable-IsDeclared ks empty = tt
Reachable-IsDeclared ks (registering {ks = before} a r h) =
    let (valid, e) = register_adapter-registered a before ks h in
    subst (All IsDeclared) (sym e) (
      set-All IsDeclared a before (validate_adapter_contract-IsDeclared a valid)
        (Reachable-IsDeclared before r))

-- Whatever was registered: a contract that is found declares that each of its capabilities of high
-- risk requires approval, and then that it does itself; and a registration that returns leaves the
-- contract under its id, and what is found under any other id as it was.
pub register_adapter-IsDeclared :
    (ks ks' : List AdapterContract) (a : AdapterContract)
    → Reachable ks
    → register_adapter a ks ≡ registered ks'
    → All IsDeclared ks'
      × ((id : String)
          → get_adapter id ks' ≡ (if a.descriptor.id == id then some a else get_adapter id ks))
register_adapter-IsDeclared ks ks' a r h =
    let (valid, e) = register_adapter-registered a ks ks' h in
    (
      Reachable-IsDeclared ks' (registering a r h),
      (λ id. ap (get_adapter id) e ∙ get_adapter-set id a ks),
    )
