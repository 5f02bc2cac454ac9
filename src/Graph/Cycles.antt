-- ===== src/Graph/Cycles.antt =====
-- Where `assertAcyclic` of taskGraph/graph.ts throws.
use prism_spectra.Common.{
  ℕ, zero, suc, ◌≤◌, ◌<◌, ◌≡◌, ◌⊎◌, inl, inr, true, false, List, [], ◌∷◌, ◌++◌, String, ◌==◌,
  string_eq, if◌then◌else◌, includes, In, In_of_includes, ap, ◌||◌, ◌∙◌, eq_of_beq, length, arith,
  Bool-cases, subst, sym, refl,
}
use text.Mathlib.TextEquality.{eq_iff}
use prism_spectra.Types.{GraphNode}
use prism_spectra.Graph.{
  Result, ok, throw, GraphError, cycle, find_node, ◌>>=◌, ids, dependencies_of, visit_all, visit,
  assert_acyclic,
}
use prism_spectra.Graph.Acyclic.{DependsOn, direct, through}

-- The ids that are not on the path, counted: each call of `visit` that goes deeper has fewer.
unlisted : List String → List String → ℕ
unlisted path [] = 0
unlisted path (x ∷ xs) = if includes path x then unlisted path xs else suc (unlisted path xs)

includes-snoc :
    (path : List String) (id x : String)
    → includes (path ++ id ∷ []) x ≡ (includes path x || id == x)
includes-snoc [] id x = ground arith
includes-snoc (y ∷ path) id x = ground (arith, includes-snoc path id x)

unlisted-le :
    (path : List String) (id : String) (xs : List String)
    → unlisted (path ++ id ∷ []) xs ≤ unlisted path xs
unfolding unlisted
unlisted-le path id [] = omega arith
unlisted-le path id (x ∷ xs) = ground (arith, includes-snoc path id x, unlisted-le path id xs)

unlisted-lt :
    (path : List String) (id : String) (xs : List String)
    → includes path id ≡ false
    → In id xs
    → unlisted (path ++ id ∷ []) xs < unlisted path xs
unfolding unlisted
unlisted-lt path id [] h m = elim m [ ]
unlisted-lt path id (x ∷ xs) h (inl e) =
    ground
      (arith, includes-snoc path id x, unlisted-le path id xs, e, eq_iff id x, ap (includes path) e)
unlisted-lt path id (x ∷ xs) h (inr m) =
    ground (arith, includes-snoc path id x, unlisted-lt path id xs h m)

unlisted-le-length : (path : List String) (ns : List GraphNode) → unlisted path (ids ns) ≤ length ns
unfolding unlisted
unlisted-le-length path [] = omega arith
unlisted-le-length path (n ∷ ns) = ground (arith, unlisted-le-length path ns)

dependencies_of-cons :
    (id : String) (n : GraphNode) (ns : List GraphNode)
    → dependencies_of id (n ∷ ns)
      ≡ (if n.id == id then n.packet.dependencies else dependencies_of id ns)
unfolding find_node
dependencies_of-cons id n ns = ground arith

-- A name with dependencies is the name of a node.
In-ids_of_dependency :
    (id d : String) (nodes : List GraphNode) → In d (dependencies_of id nodes) → In id (ids nodes)
unfolding find_node
In-ids_of_dependency id d [] m = m
In-ids_of_dependency id d (n ∷ ns) m = elim (Bool-cases (n.id == id)) [
  | inl same ↦ inl (sym (eq_of_beq n.id id same))
  | inr other ↦ inr (
      In-ids_of_dependency id d ns (
        subst (In d)
          (dependencies_of-cons id n ns
            ∙ ap (λ b. if b then n.packet.dependencies else dependencies_of id ns) other)
          m))
]

>>=-eq-throw :
    {A B : Type 0} (m : Result A) (f : A → Result B) {e : GraphError}
    → (m >>= f) ≡ throw e
    → (m ≡ throw e) ⊎ ((a : A) × (m ≡ ok a) × (f a ≡ throw e))
>>=-eq-throw (ok a) f h = inr (a, refl, h)
>>=-eq-throw (throw x) f h = inl (ground arith)

visit_all-throw :
    (go : String → List String → Result (List String)) (ds v : List String) {e : GraphError}
    → visit_all go ds v ≡ throw e
    → (d : String) × In d ds × ((w : List String) × (go d w ≡ throw e))
unfolding visit_all
visit_all-throw go [] v h = cc
visit_all-throw go (d ∷ ds) v h = elim (>>=-eq-throw (go d v) (visit_all go ds) h) [
  | inl here ↦ (d, inl refl, (v, here))
  | inr (w, _, later) ↦ let (c, m, rest) = visit_all-throw go ds w later in (c, inr m, rest)
]

-- A node on the path reaches the node under visit.
abbrev Reaches : List GraphNode → List String → String → Type 0
Reaches nodes path id = (p : String) → In p path → DependsOn nodes p id

Reaches-snoc :
    (nodes : List GraphNode) (path : List String) (id d : String)
    → Reaches nodes path id
    → In d (dependencies_of id nodes)
    → Reaches nodes (path ++ id ∷ []) d
Reaches-snoc nodes [] id d r m p (inl e) =
    direct (subst (λ y. In d (dependencies_of y nodes)) (sym e) m)
Reaches-snoc nodes [] id d r m p (inr h) = elim h [ ]
Reaches-snoc nodes (x ∷ path) id d r m p (inl e) = through (r p (inl e)) m
Reaches-snoc nodes (x ∷ path) id d r m p (inr h) =
    Reaches-snoc nodes path id d (λ q k. r q (inr k)) m p h

-- The error names a path back to a node on it, which depends on itself.
abbrev pub IsCycle : List GraphNode → GraphError → Type 0
IsCycle nodes e =
    (path : List String) × (a : String) × (e ≡ cycle (path ++ a ∷ []))
    × In a path
    × DependsOn nodes a a

cycle_of_throw :
    (path : List String) (id : String) (old : List String) (deeper : Result (List String))
    {e : GraphError}
    → (if includes old id
        then ok old
        else if includes path id
        then throw (cycle (path ++ id ∷ []))
        else deeper)
      ≡ throw e
    → includes old id ≡ false
    → includes path id ≡ true
    → e ≡ cycle (path ++ id ∷ [])
cycle_of_throw path id old deeper {e} h fresh open_call =
    let answer : Result (List String) = throw (cycle (path ++ id ∷ [])) in
    let thrown : answer ≡ throw e =
      ap (λ b. if b then ok old else if true then throw (cycle (path ++ id ∷ [])) else deeper)
        (sym fresh)
      ∙ ap
          (λ b.
            if includes old id
            then ok old
            else if b
            then throw (cycle (path ++ id ∷ []))
            else deeper)
          (sym open_call)
      ∙ h in
    cc

-- With more fuel than there are ids off the path, a visit fails only at a cycle.
visit-throw :
    (fuel : ℕ) (nodes : List GraphNode) (path : List String) (id : String) (old : List String)
    {e : GraphError}
    → unlisted path (ids nodes) < fuel
    → Reaches nodes path id
    → visit fuel nodes path id old ≡ throw e
    → IsCycle nodes e
unfolding visit
visit-throw zero nodes path id old enough r h = elim enough [ ]
visit-throw (suc fuel) nodes path id old {e} enough r h = elim (Bool-cases (includes old id)) [
  | inl seen ↦ absurd (ground arith)
  | inr fresh ↦ elim (Bool-cases (includes path id)) [
    | inl open_call ↦ (
      path,
      id,
      cycle_of_throw path id old _ h fresh open_call,
      In_of_includes path id open_call,
      r id (In_of_includes path id open_call),
    )
    | inr unseen ↦
        elim (>>=-eq-throw
          (visit_all (visit fuel nodes (path ++ id ∷ [])) (dependencies_of id nodes) old)
          (λ v. ok (id ∷ v)) {e = e} (ground arith)) [
            | inl deeper ↦
                let (d, m, (w, failed)) =
                  visit_all-throw (visit fuel nodes (path ++ id ∷ [])) (dependencies_of id nodes)
                    old deeper in
                let fewer : unlisted (path ++ id ∷ []) (ids nodes) < fuel = omega (
                  arith,
                  unlisted-lt path id (ids nodes) unseen (In-ids_of_dependency id d nodes m),
                ) in
                visit-throw fuel nodes (path ++ id ∷ []) d w fewer
                  (Reaches-snoc nodes path id d r m) failed
            | inr (v, _, done) ↦ cc
          ]
  ]
]

-- Where `assertAcyclic` throws, its error names a path of nodes that comes back to one of them, and
-- that node depends on itself, directly or through others. The fuel of the model does not run out.
pub assert_acyclic-throw-IsCycle :
    (nodes : List GraphNode) {e : GraphError} → assert_acyclic nodes ≡ throw e → IsCycle nodes e
unfolding assert_acyclic unlisted
assert_acyclic-throw-IsCycle nodes {e} h =
    let (d, m, (w, failed)) =
      visit_all-throw (visit (suc (length nodes)) nodes []) (ids nodes) [] h in
    visit-throw (suc (length nodes)) nodes [] d w (omega (arith, unlisted-le-length [] nodes))
      (λ p k. absurd k) failed
