-- ===== src/Events/Listing.antt =====
-- `list` of events/ledger.ts: which events it returns, and in which order.
use prism_spectra.Common.{
  ◌⊎◌, ◌<◌, refl, ℕ, ◌≤◌, ◌≡◌, ◌↔◌, sym, ap, ◌∙◌, inl, inr, Bool, true, false, List, [], ◌∷◌, map,
  Option, none, some, String, if◌then◌else◌, ◌==◌, string_eq, length, In, All, arith, Bool-cases,
  eq_of_beq, beq_refl, ne_of_beq, beq-false_of_ne, ltb, subst,
}
use prism_spectra.Common.Sort.{sort_by, IsSorted, IsWeakOrder, sort_by-IsSorted, In-sort_by}
use prism_spectra.Common.Members.{
  All-of_In, take-All, In-map, preimage_of_In, In-filter_by, take-IsSorted, length-take_le,
  length-map,
}
use prism_spectra.Events.{
  PrismEventLedger, PrismEventListOptions, StoredPrismEvent, matches, matching_rows, newer_first,
  slice, list,
}
use prism_spectra.Events.Matching.{IsWanted, matches-IsWanted}
use prism_spectra.Events.Types.{PrismEvent}

-- the times of the stored events
abbrev pub times_of : PrismEventLedger → List String
times_of l = map (λ row. row.event.time) l.events

-- `localeCompare` orders texts, and of the times that are stored it calls no two equal that are not.
pub record IsTimeOrder (earlier : String → String → Bool) (l : PrismEventLedger) : Type 0 where
  pub asymmetric : (a b : String) → earlier a b ≡ true → earlier b a ≡ false
  pub transitive : (a b c : String) → earlier a b ≡ true → earlier b c ≡ true → earlier a c ≡ true
  pub separates :
      (a b : String)
      → In a (times_of l)
      → In b (times_of l)
      → earlier a b ≡ false
      → earlier b a ≡ false
      → a ≡ b

slice-IsSorted :
    {A : Type 0} (before : A → A → Bool) (limit : Option ℕ) (xs : List A)
    → IsSorted before xs
    → IsSorted before (slice limit xs)
slice-IsSorted before none xs s = s
slice-IsSorted before (some n) xs s = take-IsSorted before n xs s

module _ (earlier : String → String → Bool) (l : PrismEventLedger) (o : IsTimeOrder earlier l) where
  -- a stored event's time
  abbrev IsTime : String → Type 0
  IsTime t = In t (times_of l)

  later_of_no_earlier :
      (a b : String)
      → IsTime a
      → IsTime b
      → (a == b) ≡ false
      → earlier b a ≡ false
      → earlier a b ≡ true
  later_of_no_earlier a b i j n h = elim (Bool-cases (earlier a b)) [
    | inl e ↦ e
    | inr e ↦ elim (ne_of_beq a b n (o.separates a b i j e h)) [ ]
  ]

  not_before_itself : (t : String) → earlier t t ≡ false
  not_before_itself t = elim (Bool-cases (earlier t t)) [ inl e ↦ o.asymmetric t t e | inr e ↦ e ]

  -- the comparator on times and sequence numbers
  abbrev newer : String → ℕ → String → ℕ → Bool
  newer t n u m = if t == u then ltb m n else earlier u t

  newer-asymmetric : (t u : String) (n m : ℕ) → newer t n u m ≡ true → newer u m t n ≡ false
  newer-asymmetric t u n m h = elim (Bool-cases (t == u)) [
    | inl e ↦ ground (arith, eq_of_beq t u e, beq_refl t, e)
    | inr e ↦
        ground (arith, o.asymmetric u t, e, beq-false_of_ne u t (λ p. ne_of_beq t u e (sym p)))
  ]

  newer-between :
      (t u v : String) (n k : ℕ)
      → IsTime t
      → IsTime u
      → IsTime v
      → earlier t u ≡ false
      → earlier u v ≡ false
      → (u == t) ≡ false
      → (v == u) ≡ false
      → newer v k t n ≡ false
  newer-between t u v n k it iu iv h j e f =
      let up =
        o.transitive v u t (later_of_no_earlier v u iv iu f j)
          (later_of_no_earlier u t iu it e h) in
      elim (Bool-cases (v == t)) [
        | inl g ↦
            let round =
              ap (λ x. earlier x u) (sym (eq_of_beq v t g)) ∙ later_of_no_earlier v u iv iu f j in
            cc
        | inr g ↦ ap (λ b. if b then ltb n k else earlier t v) g ∙ o.asymmetric v t up
      ]

  newer-no_earlier :
      (t u v : String) (n m k : ℕ)
      → IsTime t
      → IsTime u
      → IsTime v
      → newer u m t n ≡ false
      → newer v k u m ≡ false
      → newer v k t n ≡ false
  newer-no_earlier t u v n m k it iu iv h j = elim (Bool-cases (u == t)) [
    | inl e ↦ elim (Bool-cases (v == t)) [
      | inl f ↦ ground (arith, eq_of_beq u t e, eq_of_beq v t f, beq_refl t, e, f)
      | inr f ↦ ground (arith, eq_of_beq u t e, e, f)
    ]
    | inr e ↦ elim (Bool-cases (v == u)) [
      | inl f ↦ ground (arith, eq_of_beq v u f, e, f)
      | inr f ↦ newer-between t u v n k it iu iv (ground (arith, h, e)) (ground (arith, j, f)) e f
    ]
  ]

  newer_first-IsWeakOrder :
      IsWeakOrder (newer_first earlier) (λ (row : StoredPrismEvent). IsTime row.event.time)
  unfolding newer_first
  newer_first-IsWeakOrder = record {
    asymmetric = λ a b. newer-asymmetric a.event.time b.event.time a.seq b.seq;
    no_earlier_trans =
        λ a b c. newer-no_earlier a.event.time b.event.time c.event.time a.seq b.seq c.seq;
  }

  -- No row is listed behind a newer one.
  rows-IsSorted :
      (q : PrismEventListOptions)
      → IsSorted (newer_first earlier) (sort_by (newer_first earlier) (matching_rows q l))
  unfolding matching_rows
  rows-IsSorted q =
      sort_by-IsSorted (newer_first earlier) newer_first-IsWeakOrder (matching_rows q l) (
        All-of_In (λ (row : StoredPrismEvent). IsTime row.event.time) (matching_rows q l)
          (λ row i.
            In-map (λ (r : StoredPrismEvent). r.event.time) l.events row
              ((In-filter_by (λ (r : StoredPrismEvent). matches q r.event) l.events row).0 i).0))

  -- `a` is newer than `b`: by its time, and at the same time by its sequence number.
  abbrev pub IsNewer : StoredPrismEvent → StoredPrismEvent → Type 0
  IsNewer a b =
      (earlier b.event.time a.event.time ≡ true) ⊎ ((a.event.time ≡ b.event.time) × (b.seq < a.seq))

  abbrev pub NoneNewerBehind : List StoredPrismEvent → Type 0
  NoneNewerBehind [] = Unit
  NoneNewerBehind (a ∷ rows) = All (λ b. ¬ IsNewer b a) rows × NoneNewerBehind rows

  -- The events are those of stored rows of which none stands in front of a newer one.
  abbrev pub IsNewestFirst : List PrismEvent → Type 0
  IsNewestFirst events =
      (rows : List StoredPrismEvent) × (events ≡ map (λ row. row.event) rows)
      × All (λ row. In row l.events) rows
      × NoneNewerBehind rows

  not-IsNewer : (a b : StoredPrismEvent) → newer_first earlier b a ≡ false → ¬ IsNewer b a
  unfolding newer_first
  not-IsNewer a b h (inl p) = elim (Bool-cases (b.event.time == a.event.time)) [
    | inl e ↦
        let never =
          sym p
          ∙ ap (earlier a.event.time) (eq_of_beq b.event.time a.event.time e)
          ∙ not_before_itself a.event.time in
        cc
    | inr e ↦ ground (arith, h, e, p)
  ]
  not-IsNewer a b h (inr (same, later)) =
      ground (arith, h, ap (λ t. t == a.event.time) same ∙ beq_refl a.event.time, later)

  All-not-IsNewer :
      (a : StoredPrismEvent) (rows : List StoredPrismEvent)
      → All (λ b. newer_first earlier b a ≡ false) rows
      → All (λ b. ¬ IsNewer b a) rows
  All-not-IsNewer a [] h = tt
  All-not-IsNewer a (b ∷ rows) (p, h) = (not-IsNewer a b p, All-not-IsNewer a rows h)

  sorted-NoneNewerBehind :
      (rows : List StoredPrismEvent) → IsSorted (newer_first earlier) rows → NoneNewerBehind rows
  sorted-NoneNewerBehind [] s = tt
  sorted-NoneNewerBehind (a ∷ rows) (h, s) =
      (All-not-IsNewer a rows h, sorted-NoneNewerBehind rows s)

  sorted-stored :
      (q : PrismEventListOptions)
      → All (λ row. In row l.events) (sort_by (newer_first earlier) (matching_rows q l))
  unfolding matching_rows
  sorted-stored q =
      All-of_In (λ row. In row l.events) (sort_by (newer_first earlier) (matching_rows q l))
        (λ row i.
          ((In-filter_by (λ (r : StoredPrismEvent). matches q r.event) l.events row).0
            ((In-sort_by (newer_first earlier) row (matching_rows q l)).0 i)).0)

  slice-All :
      (limit : Option ℕ) (rows : List StoredPrismEvent)
      → All (λ row. In row l.events) rows
      → All (λ row. In row l.events) (slice limit rows)
  slice-All none rows h = h
  slice-All (some n) rows h = take-All (newer_first earlier) (λ row. In row l.events) n rows h

  -- The events are stored ones, and come newest first, by their time, and at the same time by their
  -- sequence number; they are as many as the limit allows at most. This holds where `localeCompare`
  -- orders texts and calls no two stored times equal that differ.
  pub list-IsNewestFirst :
      (q : PrismEventListOptions)
      → IsNewestFirst (list earlier q l)
        × ((limit : ℕ) → q.limit ≡ some limit → length (list earlier q l) ≤ limit)
  unfolding list
  list-IsNewestFirst q =
      let sorted = sort_by (newer_first earlier) (matching_rows q l) in
      (
        (
          slice q.limit sorted,
          refl,
          slice-All q.limit sorted (sorted-stored q),
          sorted-NoneNewerBehind (slice q.limit sorted)
              (slice-IsSorted (newer_first earlier) q.limit sorted (rows-IsSorted q)),
        ),
        (λ limit e.
            subst (λ n. n ≤ limit) (sym (length-map (λ row. row.event) (slice q.limit sorted)))
              (subst (λ o. length (slice o sorted) ≤ limit) (sym e) (length-take_le limit sorted))),
      )

-- Without a limit, `list` returns an event if and only if it is stored and each option that is given
-- wants it: its type and severity are among those given, and its related ids and its session are the
-- given ones.
pub In-list :
    (earlier : String → String → Bool) (q : PrismEventListOptions) (l : PrismEventLedger)
    (e : PrismEvent)
    → q.limit ≡ none
    → In e (list earlier q l) ↔ (In e (map (λ row. row.event) l.events) × IsWanted q e)
unfolding list matching_rows
In-list earlier q l e h =
    let keep : StoredPrismEvent → Bool = λ row. matches q row.event in
    let event : StoredPrismEvent → PrismEvent = λ row. row.event in
    let sorted = sort_by (newer_first earlier) (matching_rows q l) in
    (
      (λ m.
          let (row, i, p) =
            preimage_of_In event sorted e (subst (λ o. In e (map event (slice o sorted))) h m) in
          let (stored, k) =
            (In-filter_by keep l.events row).0
              ((In-sort_by (newer_first earlier) row (matching_rows q l)).0 i) in
          (
            subst (λ x. In x (map event l.events)) (sym p) (In-map event l.events row stored),
            (matches-IsWanted q e).0 (ap (matches q) p ∙ k),
          )),
      (λ (m, k).
          let (row, i, p) = preimage_of_In event l.events e m in
          let kept =
            (In-filter_by keep l.events row).1
              (i, sym (ap (matches q) p) ∙ (matches-IsWanted q e).1 k) in
          let found = (In-sort_by (newer_first earlier) row (matching_rows q l)).1 kept in
          subst (λ o. In e (map event (slice o sorted))) (sym h)
            (subst (λ x. In x (map event sorted)) (sym p) (In-map event sorted row found))),
    )
