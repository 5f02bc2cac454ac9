-- ===== src/Ledger/Windows.antt =====
-- What `rollWindows` of memory/ledger.ts does to the windows of a provider, within `check`.
use prism_spectra.Common.{
  ℕ, ◌+◌, ◌≤◌, ◌<◌, ◌≡◌, ◌≢◌, refl, Option, none, some, arith, if◌then◌else◌, leb, Bool-cases, inl,
  inr, beq_refl,
}
use mathlib.Core.Path.{subst₂}
use prism_spectra.Types.{ExecutorName, executor_eq, terminal}
use prism_spectra.Ledger.{Row, Table, select, roll, check, is_over}
use prism_spectra.Ledger.Budgets.{select-check, roll-dollars}

-- A window and its counter of calls, before a check and behind it. A window without an end is kept;
-- any other ends in the future, and its counter is reset if it had ended, and kept otherwise.
abbrev pub IsRolled : ℕ → Option ℕ → ℕ → Option ℕ → ℕ → Type 0
IsRolled now none used reset_at' used' = (reset_at' ≡ none) × (used' ≡ used)
IsRolled now (some reset_at) used reset_at' used' =
    ((later : ℕ) × (reset_at' ≡ some later) × (now < later))
    × (reset_at ≤ now → used' ≡ 0)
    × (now < reset_at → used' ≡ used)

window-IsRolled :
    (now step used : ℕ) (o : Option ℕ)
    → 0 < step
    → IsRolled now o used
        (if is_over o now then some (now + step) else o)
        (if is_over o now then 0 else used)
window-IsRolled now step used none p = (refl, refl)
window-IsRolled now step used (some x) p = elim (Bool-cases (leb x now)) [
  | inl e ↦
      rw e ((now + step, refl, omega (arith, p)), (λ h. refl), (λ h. absurd (ground (arith, e, h))))
  | inr e ↦ rw e ((x, refl, ground (arith, e)), (λ h. absurd (ground (arith, e, h))), (λ h. refl))
]

roll-IsRolled :
    (now : ℕ) (r : Row)
    → IsRolled now r.rpm_reset_at r.rpm_used (roll now r).rpm_reset_at (roll now r).rpm_used
      × IsRolled now r.rpd_reset_at r.rpd_used (roll now r).rpd_reset_at (roll now r).rpd_used
unfolding roll
roll-IsRolled now r = (
  subst₂ (IsRolled now r.rpm_reset_at r.rpm_used) (ground arith) (ground arith)
      (window-IsRolled now 60000 r.rpm_used r.rpm_reset_at (omega arith)),
  subst₂ (IsRolled now r.rpd_reset_at r.rpd_used) (ground arith) (ground arith)
      (window-IsRolled now 86400000 r.rpd_used r.rpd_reset_at (omega arith)),
)

-- After a check both windows end in the future, or never where the row had no end. A counter was
-- reset to 0 if its window had ended, and kept otherwise; the dollars are kept.
pub check_windows :
    (p : ExecutorName) (now : ℕ) (t : Table) (r : Row)
    → p ≢ terminal
    → select p t ≡ some r
    → (r' : Row) × (select p (check p now t).1 ≡ some r')
      × IsRolled now r.rpm_reset_at r.rpm_used r'.rpm_reset_at r'.rpm_used
      × IsRolled now r.rpd_reset_at r.rpd_used r'.rpd_reset_at r'.rpd_used
      × (r'.dollar_used ≡ r.dollar_used)
check_windows p now t r h s =
    let (rpm, rpd) = roll-IsRolled now r in
    (roll now r, ground (arith, select-check p p now t h, beq_refl p), rpm, rpd, roll-dollars now r)
