-- ===== src/Router/Search.antt =====
-- The loop over providers in routing/router.ts: whom it finds, and what its checks leave as it was.
use prism_spectra.Common.{
  ℕ, ◌≡◌, ◌≢◌, refl, Bool, ◌&&◌, find_by, first_some, List, [], ◌∷◌, ◌++◌, arith, All,
}
use prism_spectra.Types.{ExecutorName, executor_eq, ChainAttempt, node_type_eq}
use prism_spectra.Ledger.{Table, check}
use prism_spectra.Ledger.Budgets.{check-check}
use prism_spectra.Router.{Availability, provider_available, consult, Found, try_each, or_next}

abbrev pub NotTerminal : ExecutorName → Type 0
NotTerminal p = p ≢ ExecutorName.terminal

module _ (a : Availability) (now : ℕ) where
  -- A provider that is up and that the ledger allows, at the table given.
  unfoldable pub eligible : Table → ExecutorName → Bool
  eligible t p = (provider_available a p).available && (check p now t).0.allowed

  -- The windows that a search has rolled do not change who is eligible.
  abbrev pub Agrees : Table → Table → Type 0
  Agrees old new = (p : ExecutorName) → NotTerminal p → eligible new p ≡ eligible old p

  pub consult-allowed :
      (p : ExecutorName) (t : Table) → (consult a now p t).0.allowed ≡ eligible t p
  unfolding consult eligible
  consult-allowed p t = ground arith

  pub consult-Agrees :
      (p : ExecutorName) (t : Table) → NotTerminal p → Agrees t (consult a now p t).1
  unfolding consult eligible
  consult-Agrees p t h q hq = ground (arith, check-check q p now t hq h)

  pub find_by-Agrees :
      (ps : List ExecutorName) (old new : Table)
      → Agrees old new
      → All NotTerminal ps
      → find_by (eligible new) ps ≡ find_by (eligible old) ps
  find_by-Agrees [] old new h n = refl
  find_by-Agrees (p ∷ ps) old new h (n, ns) = ground (arith, h p n, find_by-Agrees ps old new h ns)

  -- The loop finds the first provider of the list that is eligible when it starts,
  pub try_each-find :
      (ps : List ExecutorName) (chain : List ChainAttempt) (t : Table)
      → All NotTerminal ps
      → (try_each a now ps chain t).executor ≡ find_by (eligible t) ps
  unfolding try_each
  try_each-find [] chain t n = refl
  try_each-find (p ∷ ps) chain t (n, ns) =
      let (attempt, rolled) = consult a now p t in
      ground (
        arith,
        consult-allowed p t,
        try_each-find ps (chain ++ attempt ∷ []) rolled ns,
        find_by-Agrees ps t rolled (consult-Agrees p t n) ns,
      )

  -- and leaves a table at which the same providers are eligible.
  pub try_each-Agrees :
      (ps : List ExecutorName) (chain : List ChainAttempt) (t : Table)
      → All NotTerminal ps
      → Agrees t (try_each a now ps chain t).table
  unfolding try_each
  try_each-Agrees [] chain t n q hq = refl
  try_each-Agrees (p ∷ ps) chain t (n, ns) q hq =
      let (attempt, rolled) = consult a now p t in
      ground (
        arith,
        consult-Agrees p t n q hq,
        try_each-Agrees ps (chain ++ attempt ∷ []) rolled ns q hq,
      )

pub find_by-append {ℓ} :
    {A : Type ℓ} (f : A → Bool) (xs ys : List A)
    → find_by f (xs ++ ys) ≡ first_some (find_by f xs) (find_by f ys)
find_by-append f [] ys = refl
find_by-append f (x ∷ xs) ys = ground (arith, find_by-append f xs ys)

pub or_next-executor :
    (f : Found) (next : List ChainAttempt → Table → Found)
    → (or_next f next).executor ≡ first_some f.executor (next f.chain f.table).executor
or_next-executor f next = ground arith
