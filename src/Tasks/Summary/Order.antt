-- ===== src/Tasks/Summary/Order.antt =====
-- The order of the findings and the checks (apps/web/src/components/task-summary-panel.tsx).
use lgtm.Prelude.{◌≡◌, not, ◌||◌, List, ◌++◌, keep, arith}
use lgtm.Prelude.Sort.{sort_by_first}
use lgtm.Types.{Finding, ValidationResult}
use lgtm.Tasks.Summary.{is_blocking, finding_le, sort_findings, check_le, sort_checks}

finding_le-by_first :
    (a b : Finding) → finding_le a b ≡ (is_blocking a.severity || not (is_blocking b.severity))
finding_le-by_first a b = ground arith

check_le-by_first : (a b : ValidationResult) → check_le a b ≡ (not a.ok || not (not b.ok))
check_le-by_first a b = ground arith

-- The blocking findings stand first and the warnings behind them, each in the order of the review.
pub sort_findings-eq :
    (findings : List Finding)
    → sort_findings findings
      ≡ keep (λ f. is_blocking f.severity) findings
        ++ keep (λ f. not (is_blocking f.severity)) findings
unfolding sort_findings
sort_findings-eq findings =
    sort_by_first finding_le (λ f. is_blocking f.severity) finding_le-by_first findings

-- The failed checks stand first and the passed ones behind them, each in the order of the
-- result.
pub sort_checks-eq :
    (checks : List ValidationResult)
    → sort_checks checks ≡ keep (λ c. not c.ok) checks ++ keep (λ c. not (not c.ok)) checks
unfolding sort_checks
sort_checks-eq checks = sort_by_first check_le (λ c. not c.ok) check_le-by_first checks
