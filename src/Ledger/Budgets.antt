-- ===== src/Ledger/Budgets.antt =====
-- What `check`, `recordUsage` and `setBudget` of memory/ledger.ts do to the row of a provider.
use prism_spectra.Common.{
  ℕ, ◌+◌, ◌≤◌, ◌<◌, ◌≡◌, ◌≢◌, ◌↔◌, refl, true, Option, none, some, [], ◌∷◌, arith, if◌then◌else◌,
  ◌==◌, Option-cases, inl, inr, ap, beq_refl, beq-false_of_ne, or_else,
}
use mathlib.Core.Option
use prism_spectra.Types.{ExecutorName, executor_eq, terminal, executor_beq_iff}
use prism_spectra.Ledger.{
  Row, Table, select, update, roll, check_row, check_selected, check, record_usage, charge,
  BudgetChange, fresh_row, ensure_rows, insert_or_ignore,
}

pub select-update :
    (p q : ExecutorName) (f : Row → Row) (t : Table)
    → ((r : Row) → (f r).provider ≡ r.provider)
    → select q (update p f t) ≡ (if p == q then Option.map f (select q t) else select q t)
unfolding select update
select-update p q f [] keep = ground arith
select-update p q f (r ∷ rs) keep = ground (
  arith,
  select-update p q f rs keep,
  keep r,
  executor_beq_iff r.provider p,
  executor_beq_iff r.provider q,
  executor_beq_iff p q,
)

pub roll-provider : (now : ℕ) (r : Row) → (roll now r).provider ≡ r.provider
unfolding roll
roll-provider now r = ground arith

-- A ceiling that is not reached: `null` is none at all.
abbrev pub IsUnder : ℕ → Option ℕ → Type 0
IsUnder used none = Unit
IsUnder used (some limit) = used < limit

pub record HasRoom (r : Row) : Type 0 where
  pub rpm : IsUnder r.rpm_used r.rpm_limit
  pub rpd : IsUnder r.rpd_used r.rpd_limit
  pub dollars : IsUnder r.dollar_used r.dollar_budget

pub check_row-HasRoom : (r : Row) → (check_row r).allowed ≡ true → HasRoom r
unfolding check_row
check_row-HasRoom r h = ground arith

pub HasRoom-check_row : (r : Row) → HasRoom r → (check_row r).allowed ≡ true
unfolding check_row
HasRoom-check_row r h = ground arith

pub roll-dollars : (now : ℕ) (r : Row) → (roll now r).dollar_used ≡ r.dollar_used
unfolding roll
roll-dollars now r = ground arith

-- The table that a check leaves.
pub select-check :
    (p q : ExecutorName) (now : ℕ) (t : Table)
    → p ≢ terminal
    → select q (check p now t).1
      ≡ (if p == q then Option.map (roll now) (select q t) else select q t)
unfolding check
select-check terminal q now t h = absurd (h refl)
select-check p q now t h = select-update p q (roll now) t (roll-provider now)

check-allowed :
    (p : ExecutorName) (now : ℕ) (t : Table)
    → p ≢ terminal
    → (check p now t).0 ≡ check_selected (Option.map (roll now) (select p t))
unfolding check
check-allowed terminal now t h = absurd (h refl)
check-allowed p now t h = ap check_selected (select-update p p (roll now) t (roll-provider now))

-- A provider other than the terminal is allowed exactly if its row, its elapsed windows reset, is
-- under each of its ceilings; a provider without a row is allowed.
pub check-allowed_iff :
    (p : ExecutorName) (now : ℕ) (t : Table)
    → p ≢ terminal
    → ((check p now t).0.allowed ≡ true) ↔ ((r : Row) → select p t ≡ some r → HasRoom (roll now r))
check-allowed_iff p now t h = (
  (λ e r s. check_row-HasRoom (roll now r) (ground (arith, check-allowed p now t h))),
  (λ room. elim (Option-cases (select p t)) [
    | inl e ↦ ground (arith, check-allowed p now t h)
    | inr (r, e) ↦
        ground (arith, check-allowed p now t h, HasRoom-check_row (roll now r) (room r e))
  ]),
)

-- Calls counted so far do not exceed the rates.
pub record IsWithinRates (r : Row) : Type 0 where
  pub rpm : (limit : ℕ) → r.rpm_limit ≡ some limit → r.rpm_used ≤ limit
  pub rpd : (limit : ℕ) → r.rpd_limit ≡ some limit → r.rpd_used ≤ limit

charge-IsWithinRates : (cost : ℕ) (r : Row) → HasRoom r → IsWithinRates (charge cost r)
charge-IsWithinRates cost r h = record {
  rpm = λ limit e. ground (arith, h.rpm);
  rpd = λ limit e. ground (arith, h.rpd);
}

pub select-record_usage :
    (p q : ExecutorName) (cost : ℕ) (t : Table)
    → p ≢ terminal
    → select q (record_usage p cost t)
      ≡ (if p == q then Option.map (charge cost) (select q t) else select q t)
unfolding record_usage
select-record_usage terminal q cost t h = absurd (h refl)
select-record_usage p q cost t h = select-update p q (charge cost) t (λ r. refl)

-- A call that was allowed and is then recorded leaves the provider within its rates per minute and per
-- day, and spends the cost; the rows of other providers stay as they are.
pub record_usage-check_within :
    (p : ExecutorName) (now cost : ℕ) (t : Table) (r : Row)
    → p ≢ terminal
    → select p t ≡ some r
    → (check p now t).0.allowed ≡ true
    → let after = record_usage p cost (check p now t).1 in
      ((r' : Row) × (select p after ≡ some r')
        × IsWithinRates r'
        × (r'.dollar_used ≡ r.dollar_used + cost))
      × ((q : ExecutorName) → p ≢ q → select q after ≡ select q t)
record_usage-check_within p now cost t r h s e = (
  (
    charge cost (roll now r),
    ground (
      arith,
      select-record_usage p p cost (check p now t).1 h,
      select-check p p now t h,
      beq_refl p,
    ),
    charge-IsWithinRates cost (roll now r) ((check-allowed_iff p now t h).0 e r s),
    ground (arith, roll-dollars now r),
  ),
  λ q ne. ground (
    arith,
    select-record_usage p q cost (check p now t).1 h,
    select-check p q now t h,
    beq-false_of_ne p q ne,
  ),
)

abbrev Fits : ℕ → BudgetChange → Row → Type 0
Fits now b r =
    IsUnder (roll now r).rpm_used (or_else b.rpm_limit r.rpm_limit)
    × IsUnder (roll now r).rpd_used (or_else b.rpd_limit r.rpd_limit)
    × IsUnder r.dollar_used (or_else b.dollar_budget r.dollar_budget)

select-insert_or_ignore :
    (p q : ExecutorName) (now : ℕ) (t : Table)
    → select p (insert_or_ignore now q t)
      ≡ (if q == p then some (or_else (select p t) (fresh_row p now)) else select p t)
unfolding insert_or_ignore
select-insert_or_ignore p q now t = ground (arith, executor_beq_iff q p)

-- The constructor gives every provider a row, and leaves a row that is there as it is.
pub select-ensure_rows :
    (p : ExecutorName) (now : ℕ) (t : Table)
    → select p (ensure_rows now t) ≡ some (or_else (select p t) (fresh_row p now))
unfolding ensure_rows
select-ensure_rows p now t = simp select-insert_or_ignore (ground arith)

roll_idem : (now : ℕ) (r : Row) → roll now (roll now r) ≡ roll now r
unfolding roll
roll_idem now r = ground arith

-- A check does not change the answer of another one at the same time.
pub check-check :
    (p q : ExecutorName) (now : ℕ) (t : Table)
    → p ≢ terminal
    → q ≢ terminal
    → (check p now (check q now t).1).0 ≡ (check p now t).0
check-check p q now t hp hq = elim (Option-cases (select p t)) [
  | inl e ↦ ground (
    arith,
    check-allowed p now t hp,
    check-allowed p now (check q now t).1 hp,
    select-check q p now t hq,
  )
  | inr (r, e) ↦ ground (
    arith,
    check-allowed p now t hp,
    check-allowed p now (check q now t).1 hp,
    select-check q p now t hq,
    roll_idem now r,
  )
]
