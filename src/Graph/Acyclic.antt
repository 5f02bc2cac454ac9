-- ===== src/Graph/Acyclic.antt =====
-- `assertAcyclic` of taskGraph/graph.ts against the dependency relation.
use prism_spectra.Common.{
  ℕ, zero, suc, ◌≡◌, ◌⊎◌, inl, inr, true, List, [], ◌∷◌, ◌++◌, String, string_eq, includes, In, All,
  In_of_includes, In_of_All, length, arith, Bool-cases, subst, sym, refl,
}
use prism_spectra.Types.{GraphNode}
use prism_spectra.Graph.{
  Result, ok, throw, ◌>>=◌, ids, dependencies_of, visit_all, visit, assert_acyclic,
}

-- `a` depends on `b`, directly or through others.
pub data DependsOn (nodes : List GraphNode) : String → String → Type 0 where
  direct : {a b : String} → In b (dependencies_of a nodes) → DependsOn nodes a b
  through :
      {a b c : String} → DependsOn nodes a b → In c (dependencies_of b nodes) → DependsOn nodes a c

pub >>=-eq-ok :
    {A B : Type 0} (first : Result A) (next : A → Result B) {answer : B}
    → (first >>= next) ≡ ok answer
    → (x : A) × (first ≡ ok x) × (next x ≡ ok answer)
>>=-eq-ok (ok x) next e = (x, refl, e)
>>=-eq-ok (throw why) next e = cc

module _ (nodes : List GraphNode) where
  -- Every node stands in front of its dependencies: `visited`, newest first.
  abbrev pub IsTopological : List String → Type 0
  IsTopological [] = Unit
  IsTopological (x ∷ xs) = All (λ d. In d xs) (dependencies_of x nodes) × IsTopological xs

  abbrev pub Extends : List String → List String → Type 0
  Extends old new = (a : String) → In a old → In a new

  -- What one call of `visit` and the loop over several establish.
  record Visited (id : String) (old new : List String) : Type 0 where
    topological : IsTopological new
    extends : Extends old new
    member : In id new

  record AllVisited (ds old new : List String) : Type 0 where
    topological : IsTopological new
    extends : Extends old new
    members : All (λ d. In d new) ds

  All-Extends :
      (ds old new : List String) → Extends old new → All (λ d. In d old) ds → All (λ d. In d new) ds
  All-Extends [] old new e h = tt
  All-Extends (d ∷ ds) old new e (h, hs) = (e d h, All-Extends ds old new e hs)

  visit_all-AllVisited :
      (go : String → List String → Result (List String))
      → ((d : String) (old new : List String)
          → IsTopological old
          → go d old ≡ ok new
          → Visited d old new)
      → (ds old new : List String) → IsTopological old
      → visit_all go ds old ≡ ok new
      → AllVisited ds old new
  unfolding visit_all
  visit_all-AllVisited go step [] old new t e = record {
    topological = ground arith;
    extends = λ a h. subst (In a) (cc) h;
    members = tt;
  }
  visit_all-AllVisited go step (d ∷ ds) old new t e =
      let (mid, first, later) = >>=-eq-ok (go d old) (visit_all go ds) e in
      let v = step d old mid t first in
      let vs = visit_all-AllVisited go step ds mid new v.topological later in
      record {
        topological = vs.topological;
        extends = λ a h. vs.extends a (v.extends a h);
        members = (vs.extends d v.member, vs.members);
      }

  Visited-here :
      (id : String) (old : List String)
      → IsTopological old
      → includes old id ≡ true
      → Visited id old old
  Visited-here id old t seen = record {
    topological = t;
    extends = λ a h. h;
    member = In_of_includes old id seen;
  }

  Visited-cons :
      (id : String) (old mid : List String)
      → AllVisited (dependencies_of id nodes) old mid
      → Visited id old (id ∷ mid)
  Visited-cons id old mid vs = record {
    topological = (vs.members, vs.topological);
    extends = λ a h. inr (vs.extends a h);
    member = inl refl;
  }

  visit-Visited :
      (fuel : ℕ) (path : List String) (id : String) (old new : List String)
      → IsTopological old
      → visit fuel nodes path id old ≡ ok new
      → Visited id old new
  unfolding visit
  visit-Visited zero path id old new t e = cc
  visit-Visited (suc fuel) path id old new t e = elim (Bool-cases (includes old id)) [
    | inl seen ↦ subst (Visited id old) (ground arith) (Visited-here id old t seen)
    | inr fresh ↦ elim (Bool-cases (includes path id)) [
      | inl open_call ↦ absurd (ground arith)
      | inr unseen ↦
          let (mid, first, last) =
            >>=-eq-ok
              (visit_all (visit fuel nodes (path ++ id ∷ [])) (dependencies_of id nodes) old)
              (λ v. ok (id ∷ v)) {answer = new} (ground arith) in
          subst (Visited id old) (ground arith) (
            Visited-cons id old mid (
              visit_all-AllVisited (visit fuel nodes (path ++ id ∷ []))
                (visit-Visited fuel (path ++ id ∷ [])) (dependencies_of id nodes) old mid t first))
    ]
  ]

  -- A successful check has put every node in a topological order.
  assert_acyclic_sound :
      {order : List String}
      → assert_acyclic nodes ≡ ok order
      → IsTopological order × All (λ id. In id order) (ids nodes)
  unfolding assert_acyclic
  assert_acyclic_sound {order} e =
      let vs =
        visit_all-AllVisited (visit (suc (length nodes)) nodes [])
          (visit-Visited (suc (length nodes)) []) (ids nodes) [] order tt e in
      (vs.topological, vs.members)

  -- The nodes of a topological order are closed under dependencies,
  closed :
      (order : List String) (a b : String)
      → IsTopological order
      → In a order
      → In b (dependencies_of a nodes)
      → In b order
  closed [] a b t h d = elim h [ ]
  closed (x ∷ xs) a b (here, t) (inl p) d = inr (
      In_of_All (λ y. In y xs) (dependencies_of x nodes) b here
        (subst (λ y. In b (dependencies_of y nodes)) p d))
  closed (x ∷ xs) a b (here, t) (inr h) d = inr (closed xs a b t h d)

  closed_chain :
      (order : List String) {a b : String}
      → IsTopological order
      → In a order
      → DependsOn nodes a b
      → In b order
  closed_chain order t h (direct {a} {b} d) = closed order a b t h d
  closed_chain order t h (through {a} {b} {c} p d) = closed order b c t (closed_chain order t h p) d

  -- and none of them depends on itself.
  first_step :
      {a b : String}
      → DependsOn nodes a b
      → (d : String) × In d (dependencies_of a nodes) × ((d ≡ b) ⊎ DependsOn nodes d b)
  first_step (direct {a} {b} d) = (b, d, inl refl)
  first_step (through {a} {b} {c} p d) =
      let (e, m, rest) = first_step p in
      (
        e,
        m,
        inr (elim rest [
          | inl q ↦ direct (subst (λ y. In c (dependencies_of y nodes)) (sym q) d)
          | inr r ↦ through r d
        ]),
      )

  no_cycle :
      (order : List String) (a : String) → IsTopological order → In a order → ¬ DependsOn nodes a a
  no_cycle [] a t h c = h
  no_cycle (x ∷ xs) a (here, t) (inr h) c = no_cycle xs a t h c
  no_cycle (x ∷ xs) a (here, t) (inl p) c =
      let (d, m, rest) = first_step c in
      let later =
        In_of_All (λ y. In y xs) (dependencies_of x nodes) d here
          (subst (λ y. In d (dependencies_of y nodes)) p m) in
      no_cycle xs a t
        (elim rest [ inl q ↦ subst (λ y. In y xs) q later | inr r ↦ closed_chain xs t later r ]) c

  -- Once `assertAcyclic` returns, no node of the graph depends on itself, directly or through others.
  pub assert_acyclic-ok_acyclic :
      {order : List String} (a : String)
      → assert_acyclic nodes ≡ ok order
      → In a (ids nodes)
      → ¬ DependsOn nodes a a
  assert_acyclic-ok_acyclic {order} a e h =
      let (t, members) = assert_acyclic_sound e in
      no_cycle order a t (In_of_All (λ y. In y order) (ids nodes) a members h)
