-- ===== src/Ledger.antt =====
-- memory/ledger.ts: rate and cost budgets of the providers. The table `cost_quota_ledger` is the list
-- of its rows, a row is a record, `null` is `none`. A time is a number of milliseconds, as `Date.now()`
-- gives it; a method is given the reading of the clock that it makes.
pub mod Budgets
pub mod Windows
use prism_spectra.Common.{
  ℕ, ◌+◌, Bool, true, false, ◌&&◌, List, [], ◌∷◌, Option, none, some, if◌then◌else◌, leb, ◌==◌,
  or_else, is_some,
}
use prism_spectra.Types.{
  ExecutorName, executor_eq, ollama, free_tier, gpt, claude, terminal, Refusal, rpm_exhausted,
  rpd_exhausted, dollars_exhausted,
}

pub record ProviderBudget : Type 0 where
  pub rpm_limit : Option ℕ
  pub rpd_limit : Option ℕ
  pub dollar_budget : Option ℕ

abbrev pub no_budget : ProviderBudget
no_budget = record { rpm_limit = none; rpd_limit = none; dollar_budget = none }

-- `DEFAULT_BUDGETS`, 5 dollars being 5 * 10^9 units
unfoldable pub default_budgets : ExecutorName → ProviderBudget
default_budgets free_tier = record no_budget { rpm_limit = some 15; rpd_limit = some 1500 }
default_budgets gpt = record no_budget { dollar_budget = some 5000000000 }
default_budgets claude = record no_budget { dollar_budget = some 5000000000 }
default_budgets _ = no_budget

pub record Row : Type 0 where
  pub provider : ExecutorName
  pub rpm_limit : Option ℕ
  pub rpm_used : ℕ
  pub rpm_reset_at : Option ℕ
  pub rpd_limit : Option ℕ
  pub rpd_used : ℕ
  pub rpd_reset_at : Option ℕ
  pub dollar_budget : Option ℕ
  pub dollar_used : ℕ

abbrev pub Table : Type 0
Table = List Row

pub record LedgerCheck : Type 0 where
  pub allowed : Bool
  pub reason : Option Refusal

unfoldable pub next_minute_boundary : ℕ → ℕ
next_minute_boundary now = now + 60000

unfoldable pub next_day_boundary : ℕ → ℕ
next_day_boundary now = now + 86400000

-- `SELECT * … WHERE provider = ?`
unfoldable pub select : ExecutorName → Table → Option Row
select p [] = none
select p (r ∷ rs) = let rest = select p rs in if r.provider == p then some r else rest

-- `UPDATE … WHERE provider = ?`
unfoldable pub update : ExecutorName → (Row → Row) → Table → Table
update p f [] = []
update p f (r ∷ rs) = (if r.provider == p then f r else r) ∷ update p f rs

abbrev pub fresh_row : ExecutorName → ℕ → Row
fresh_row p now = record {
  provider = p;
  rpm_limit = (default_budgets p).rpm_limit;
  rpm_used = 0;
  rpm_reset_at = some (next_minute_boundary now);
  rpd_limit = (default_budgets p).rpd_limit;
  rpd_used = 0;
  rpd_reset_at = some (next_day_boundary now);
  dollar_budget = (default_budgets p).dollar_budget;
  dollar_used = 0;
}

-- `INSERT OR IGNORE`
unfoldable pub insert_or_ignore : ℕ → ExecutorName → Table → Table
unfolding select
insert_or_ignore now p t = if is_some (select p t) then t else fresh_row p now ∷ t

unfoldable pub ensure_rows : ℕ → Table → Table
unfolding insert_or_ignore
ensure_rows now t = insert_or_ignore now terminal (
    insert_or_ignore now claude
      (insert_or_ignore now gpt (insert_or_ignore now free_tier (insert_or_ignore now ollama t))))

-- `row.rpm_reset_at && new Date(row.rpm_reset_at).getTime() <= now`: a window without an end is kept.
abbrev pub is_over : Option ℕ → ℕ → Bool
is_over none now = false
is_over (some reset_at) now = leb reset_at now

-- the two updates of `rollWindows` on the selected row
unfoldable pub roll_rpm : ℕ → Row → Row
unfolding next_minute_boundary
roll_rpm now r =
    if is_over r.rpm_reset_at now
    then record r { rpm_used = 0; rpm_reset_at = some (next_minute_boundary now) }
    else r

unfoldable pub roll_rpd : ℕ → Row → Row
unfolding next_day_boundary
roll_rpd now r =
    if is_over r.rpd_reset_at now
    then record r { rpd_used = 0; rpd_reset_at = some (next_day_boundary now) }
    else r

unfoldable pub roll : ℕ → Row → Row
unfolding roll_rpm roll_rpd
roll now r = roll_rpd now (roll_rpm now r)

unfoldable pub roll_windows : ExecutorName → ℕ → Table → Table
unfolding roll update
roll_windows p now t = update p (roll now) t

-- `limit != null && used >= limit`
abbrev pub exhausted : Option ℕ → ℕ → Bool
exhausted none used = false
exhausted (some limit) used = leb limit used

abbrev pub allow : LedgerCheck
allow = record { allowed = true; reason = none }

abbrev pub refuse : Refusal → LedgerCheck
refuse why = record { allowed = false; reason = some why }

-- the three tests of `check` on the selected row
unfoldable pub check_row : Row → LedgerCheck
check_row r =
    if exhausted r.rpm_limit r.rpm_used
    then refuse (rpm_exhausted r.provider r.rpm_used (or_else r.rpm_limit 0))
    else if exhausted r.rpd_limit r.rpd_used
    then refuse (rpd_exhausted r.provider r.rpd_used (or_else r.rpd_limit 0))
    else if exhausted r.dollar_budget r.dollar_used
    then refuse (dollars_exhausted r.provider r.dollar_used (or_else r.dollar_budget 0))
    else allow

abbrev pub check_selected : Option Row → LedgerCheck
check_selected none = allow
check_selected (some r) = check_row r

-- The check, and the table with the windows rolled.
unfoldable pub check : ExecutorName → ℕ → Table → LedgerCheck × Table
unfolding roll_windows check_row select
check terminal now t = (allow, t)
check p now t = let rolled = roll_windows p now t in (check_selected (select p rolled), rolled)

abbrev pub charge : ℕ → Row → Row
charge cost r = record r {
  rpm_used = r.rpm_used + 1;
  rpd_used = r.rpd_used + 1;
  dollar_used = r.dollar_used + cost;
}

unfoldable pub record_usage : ExecutorName → ℕ → Table → Table
unfolding update
record_usage terminal cost t = t
record_usage p cost t = update p (charge cost) t

-- The third argument of `setBudget`: a missing key is `none`, `null` is `some none`.
pub record BudgetChange : Type 0 where
  pub rpm_limit : Option (Option ℕ)
  pub rpd_limit : Option (Option ℕ)
  pub dollar_budget : Option (Option ℕ)

abbrev pub rebudget : BudgetChange → Row → Row
rebudget b r = record r {
  rpm_limit = or_else b.rpm_limit r.rpm_limit;
  rpd_limit = or_else b.rpd_limit r.rpd_limit;
  dollar_budget = or_else b.dollar_budget r.dollar_budget;
}

unfoldable pub set_budget : ExecutorName → BudgetChange → Table → Table
unfolding update
set_budget p b t = update p (rebudget b) t
