-- ===== src/Events.antt =====
-- events/ledger.ts: the event ledger in memory. A ledger is a value, and a method gives the next one.
-- A method that reads the clock is given the reading. Listeners are left out: an append has returned
-- its event whatever they do.
pub mod Types
pub mod Matching
pub mod Listing
use prism_spectra.Common.{
  ℕ, ◌+◌, Bool, true, false, not, ◌&&◌, ◌||◌, List, [], ◌∷◌, ◌++◌, map, Option, none, some, String,
  if◌then◌else◌, ◌==◌, string_eq, nat_eq, ltb, or_else, first_some, includes, filter_by, find_by,
  take, length, Eq,
}
use prism_spectra.Common.Sort.{sort_by}
use Prim.Native.String
use prism_spectra.Common.Text.{trim, trimmed}
use prism_spectra.Common.Text.Base36.{to_base36}
use Types.{PrismEvent, PrismEventInput, PrismEventType, PrismEventSeverity, type_eq, severity_eq}

-- `Date.now()` and `new Date().toISOString()`
pub record Clock : Type 0 where
  pub ms : ℕ
  pub iso : String

pub record StoredPrismEvent : Type 0 where
  pub seq : ℕ
  pub event : PrismEvent

pub record PrismEventLedger : Type 0 where
  pub seq : ℕ
  pub events : List StoredPrismEvent
  pub current_session_id : Option String

-- the constructor
unfoldable pub new_event_ledger : Option String → PrismEventLedger
unfolding trimmed
new_event_ledger session_id = record {
  seq = 0;
  events = [];
  current_session_id = trimmed session_id;
}

unfoldable pub set_session_id : Option String → PrismEventLedger → PrismEventLedger
unfolding trimmed
set_session_id session_id l = record l { current_session_id = trimmed session_id }

-- `${prefix}_${Date.now().toString(36)}_${(seq + 1).toString(36)}`
unfoldable pub generated_id : String → Clock → ℕ → String
unfolding to_base36
generated_id prefix now seq =
    String.◌++◌ prefix
      (String.◌++◌ "_" (String.◌++◌ (to_base36 now.ms) (String.◌++◌ "_" (to_base36 (seq + 1)))))

-- the event that `append` makes
unfoldable pub event_of : Clock → PrismEventInput → PrismEventLedger → PrismEvent
unfolding generated_id trimmed trim
event_of now input l = record {
  id = or_else (trimmed input.id) (generated_id "evt" now l.seq);
  time = or_else (trimmed input.time) now.iso;
  type = input.type;
  summary = trim input.summary;
  severity = input.severity;
  source = input.source;
  related_capability_id = trimmed input.related_capability_id;
  related_artifact_id = trimmed input.related_artifact_id;
  related_conversation_id = trimmed input.related_conversation_id;
  related_checkpoint_id = input.related_checkpoint_id;
  related_approval_id = trimmed input.related_approval_id;
  session_id = first_some (trimmed input.session_id) l.current_session_id;
  metadata = input.metadata;
}

-- `this.seq += 1; this.events.push(…)`
abbrev pub push_event : PrismEvent → PrismEventLedger → PrismEventLedger
push_event e l = record l {
  seq = l.seq + 1;
  events = l.events ++ record { seq = l.seq + 1; event = e } ∷ [];
}

unfoldable pub append : Clock → PrismEventInput → PrismEventLedger → PrismEvent × PrismEventLedger
unfolding event_of
append now input l = (event_of now input l, push_event (event_of now input l) l)

-- `T | T[] | undefined`
pub data Filter (A : Type 0) : Type 0 where
  any : Filter A
  one : A → Filter A
  many : List A → Filter A

unfoldable pub normalize_filter : {A : Type 0} → Filter A → Option (List A)
normalize_filter any = none
normalize_filter (one a) = some (a ∷ [])
normalize_filter (many as') = some as'

unfoldable pub matches_filter : {A : Type 0} ⦃eq : Eq A⦄ → A → Option (List A) → Bool
matches_filter a none = true
matches_filter a (some filter) = includes filter a

pub record PrismEventListOptions : Type 0 where
  pub limit : Option ℕ
  pub type : Filter PrismEventType
  pub severity : Filter PrismEventSeverity
  pub related_capability_id : Option String
  pub related_artifact_id : Option String
  pub related_conversation_id : Option String
  pub related_checkpoint_id : Option ℕ
  pub related_approval_id : Option String
  pub session_id : Option String

-- `wanted == null || found === wanted`
unfoldable pub agrees : {A : Type 0} ⦃eq : Eq A⦄ → Option A → Option A → Bool
agrees none found = true
agrees (some a) none = false
agrees (some a) (some b) = b == a

-- the test of `list` on an event
unfoldable pub matches : PrismEventListOptions → PrismEvent → Bool
unfolding normalize_filter matches_filter agrees
matches o e =
    matches_filter e.type (normalize_filter o.type)
    && matches_filter e.severity (normalize_filter o.severity)
    && agrees o.related_capability_id e.related_capability_id
    && agrees o.related_artifact_id e.related_artifact_id
    && agrees o.related_conversation_id e.related_conversation_id
    && agrees o.related_checkpoint_id e.related_checkpoint_id
    && agrees o.related_approval_id e.related_approval_id
    && agrees o.session_id e.session_id

-- The comparator of `list` is negative. `earlier a b` is `a.localeCompare(b) < 0`.
unfoldable pub newer_first : (String → String → Bool) → StoredPrismEvent → StoredPrismEvent → Bool
newer_first earlier l r =
    if l.event.time == r.event.time then ltb r.seq l.seq else earlier r.event.time l.event.time

-- `.slice(0, limit)`, an absent limit being infinite
abbrev pub slice : {A : Type 0} → Option ℕ → List A → List A
slice none xs = xs
slice (some n) xs = take n xs

unfoldable pub matching_rows : PrismEventListOptions → PrismEventLedger → List StoredPrismEvent
unfolding matches
matching_rows o l = filter_by (λ row. matches o row.event) l.events

unfoldable pub list :
    (String → String → Bool) → PrismEventListOptions → PrismEventLedger → List PrismEvent
unfolding matching_rows newer_first sort_by
list earlier o l =
    map (λ row. row.event) (slice o.limit (sort_by (newer_first earlier) (matching_rows o l)))

unfoldable pub get : String → PrismEventLedger → Option PrismEvent
get id l = elim (find_by (λ row. row.event.id == id) l.events) [
  | none ↦ none
  | some row ↦ some row.event
]

unfoldable pub clear : PrismEventLedger → PrismEventLedger
clear l = record l { events = []; seq = 0 }
