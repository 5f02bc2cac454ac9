-- ===== src/Events/Matching.antt =====
-- The test of `list` of events/ledger.ts against what its options say.
use prism_spectra.Common.{
  ◌≡◌, ◌↔◌, refl, sym, ap, ◌∙◌, inl, inr, Bool, true, false, ◌&&◌, [], ◌∷◌, Option, none, some,
  ◌==◌, string_eq, nat_eq, Eq, In, In_of_includes, includes_of_In, eq_of_beq, beq_refl, some_inj,
}
use prism_spectra.Events.{
  PrismEventListOptions, Filter, any, one, many, agrees, matches_filter, normalize_filter, matches,
}
use prism_spectra.Events.Types.{PrismEvent, type_eq, severity_eq}

-- A filter of one value or of several, and of a value that is given or not
abbrev IsOneOf : {A : Type 0} → Filter A → A → Type 0
IsOneOf any a = Unit
IsOneOf (one b) a = a ≡ b
IsOneOf (many bs) a = In a bs

abbrev IsGiven : {A : Type 0} → Option A → Option A → Type 0
IsGiven none found = Unit
IsGiven (some a) found = found ≡ some a

-- What the options want of an event
abbrev pub IsWanted : PrismEventListOptions → PrismEvent → Type 0
IsWanted q e =
    IsOneOf q.type e.type
    × IsOneOf q.severity e.severity
    × IsGiven q.related_capability_id e.related_capability_id
    × IsGiven q.related_artifact_id e.related_artifact_id
    × IsGiven q.related_conversation_id e.related_conversation_id
    × IsGiven q.related_checkpoint_id e.related_checkpoint_id
    × IsGiven q.related_approval_id e.related_approval_id
    × IsGiven q.session_id e.session_id

matches_filter-IsOneOf :
    {A : Type 0} ⦃eq : Eq A⦄ (f : Filter A) (a : A)
    → (matches_filter a (normalize_filter f) ≡ true) ↔ IsOneOf f a
unfolding matches_filter normalize_filter
matches_filter-IsOneOf any a = (λ h. tt, λ h. refl)
matches_filter-IsOneOf (one b) a = (
  (λ h. elim (In_of_includes (b ∷ []) a h) [ inl p ↦ p | inr m ↦ elim m [ ] ]),
  (λ p. includes_of_In (b ∷ []) a (inl p)),
)
matches_filter-IsOneOf (many bs) a = (In_of_includes bs a, includes_of_In bs a)

agrees-IsGiven :
    {A : Type 0} ⦃eq : Eq A⦄ (wanted found : Option A)
    → (agrees wanted found ≡ true) ↔ IsGiven wanted found
unfolding agrees
agrees-IsGiven none found = (λ h. tt, λ h. refl)
agrees-IsGiven (some a) none = (λ h. cc, λ h. cc)
agrees-IsGiven (some a) (some b) =
    ((λ h. ap some (eq_of_beq b a h)), (λ p. ap (λ x. x == a) (some_inj p) ∙ beq_refl a))

and_iff :
    {P Q : Type 0} (a b : Bool) → (a ≡ true) ↔ P → (b ≡ true) ↔ Q → ((a && b) ≡ true) ↔ (P × Q)
and_iff true b f g = ((λ h. (f.0 refl, g.0 h)), (λ (p, q). g.1 q))
and_iff false b f g = ((λ h. cc), (λ (p, q). f.1 p))

-- Eight tests in the order of the source, grouped to the right
regrouped :
    (a b c d e f g h : Bool)
    → (a && (b && (c && (d && (e && (f && (g && h))))))) ≡ (a && b && c && d && e && f && g && h)
regrouped false b c d e f g h = refl
regrouped true false c d e f g h = refl
regrouped true true false d e f g h = refl
regrouped true true true false e f g h = refl
regrouped true true true true false f g h = refl
regrouped true true true true true false g h = refl
regrouped true true true true true true false h = refl
regrouped true true true true true true true h = refl

pub matches-IsWanted :
    (q : PrismEventListOptions) (e : PrismEvent) → (matches q e ≡ true) ↔ IsWanted q e
unfolding matches
matches-IsWanted q e =
    let tests =
      regrouped (matches_filter e.type (normalize_filter q.type))
        (matches_filter e.severity (normalize_filter q.severity))
        (agrees q.related_capability_id e.related_capability_id)
        (agrees q.related_artifact_id e.related_artifact_id)
        (agrees q.related_conversation_id e.related_conversation_id)
        (agrees q.related_checkpoint_id e.related_checkpoint_id)
        (agrees q.related_approval_id e.related_approval_id) (agrees q.session_id e.session_id) in
    let wanted = and_iff _ _ (matches_filter-IsOneOf q.type e.type) (
      and_iff _ _ (matches_filter-IsOneOf q.severity e.severity) (
        and_iff _ _ (agrees-IsGiven q.related_capability_id e.related_capability_id) (
          and_iff _ _ (agrees-IsGiven q.related_artifact_id e.related_artifact_id) (
            and_iff _ _ (agrees-IsGiven q.related_conversation_id e.related_conversation_id) (
              and_iff _ _ (agrees-IsGiven q.related_checkpoint_id e.related_checkpoint_id) (
                and_iff _ _ (agrees-IsGiven q.related_approval_id e.related_approval_id)
                  (agrees-IsGiven q.session_id e.session_id))))))) in
    (
      (λ h.
          let (t, (s, (c, (a, (o, (k, (p, i))))))) = wanted.0 (tests ∙ h) in
          (t, s, c, a, o, k, p, i)),
      (λ (t, s, c, a, o, k, p, i). sym tests ∙ wanted.1 (t, (s, (c, (a, (o, (k, (p, i)))))))),
    )
