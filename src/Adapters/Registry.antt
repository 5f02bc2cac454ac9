-- ===== src/Adapters/Registry.antt =====
-- adapters/registry.ts. The map of contracts is the list of its values in insertion order; what
-- registers, gives the next map.
use prism_spectra.Common.{
  List, [], ◌∷◌, Option, none, some, String, if◌then◌else◌, ◌==◌, string_eq, filter_by, find_by,
}
use prism_spectra.Adapters.Types.{
  AdapterContract, AdapterHealth, AdapterKind, kind_eq, healthy, unhealthy, HealthAnswer, answers,
  raises,
}
use prism_spectra.Adapters.Guard.{Guarded, passed, threw, ContractError, validate_adapter_contract}
use Prim.Native.String

-- `adapters.set(adapter.id, adapter)`: a key that is there keeps its place.
unfoldable pub set : AdapterContract → List AdapterContract → List AdapterContract
set a [] = a ∷ []
set a (k ∷ ks) = if k.descriptor.id == a.descriptor.id then a ∷ ks else k ∷ set a ks

pub data Registered : Type 0 where
  registered : List AdapterContract → Registered
  refused : ContractError → Registered

abbrev pub registered_if : Guarded ContractError → List AdapterContract → Registered
registered_if passed next = registered next
registered_if (threw e) next = refused e

unfoldable pub register_adapter : AdapterContract → List AdapterContract → Registered
unfolding set validate_adapter_contract
register_adapter a adapters = registered_if (validate_adapter_contract a) (set a adapters)

unfoldable pub get_adapter : String → List AdapterContract → Option AdapterContract
get_adapter id adapters = find_by (λ k. k.descriptor.id == id) adapters

abbrev pub list_adapters : List AdapterContract → List AdapterContract
list_adapters adapters = adapters

unfoldable pub list_adapters_by_kind : AdapterKind → List AdapterContract → List AdapterContract
list_adapters_by_kind kind adapters = filter_by (λ k. k.descriptor.kind == kind) adapters

abbrev health_answer : String → HealthAnswer → AdapterHealth
health_answer now (answers h) = h
health_answer now (raises message) = record {
  status = unhealthy;
  checked_at = now;
  message = some message;
}

abbrev health_of : String → String → AdapterContract → AdapterHealth
health_of now id k = elim k.health [
  | none ↦ record {
    status = healthy;
    checked_at = now;
    message =
        some (String.◌++◌ "Adapter " (String.◌++◌ id " exposes no health hook; assumed healthy."));
  }
  | some hook ↦ health_answer now hook
]

unfoldable pub check_adapter_health : String → String → List AdapterContract → AdapterHealth
unfolding get_adapter
check_adapter_health now id adapters = elim (get_adapter id adapters) [
  | none ↦ record {
    status = unhealthy;
    checked_at = now;
    message = some (String.◌++◌ "Adapter " (String.◌++◌ id " is not registered."));
  }
  | some k ↦ health_of now id k
]
