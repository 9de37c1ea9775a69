-- ===== src/Health/Aggregate.antt =====
-- What the loops of Ready and aggregateStatus compute, without their order.
use kaftar.Prelude.{
  ◌≡◌, refl, List, [], ◌∷◌, Bool, true, false, not, if◌then◌else◌, ◌&&◌, ◌||◌, any, arith,
}
use kaftar.Health.Check.{Status, degraded, unhealthy, is_healthy, is_disabled, Check}
use kaftar.Health.Report.{fails, none_fails, aggregate_from}

abbrev pub degrades : Check → Bool
degrades check = not (is_healthy check.status) && not (is_disabled check.status)

pub none_fails-any : (checks : List Check) → none_fails checks ≡ not (any fails checks)
unfolding none_fails any
none_fails-any [] = refl
none_fails-any (c ∷ checks) = ground (arith, none_fails-any checks)

-- The verdict as three tests on the set of checks.
abbrev pub verdict : Status → Bool → Bool → Status
verdict status failing degrading =
    if failing then unhealthy else if degrading then degraded else status

verdict-else :
    (status : Status) (f d d' : Bool)
    → verdict (if d then degraded else status) f d' ≡ verdict status f (d || d')
verdict-else status true d d' = refl
verdict-else status false true true = refl
verdict-else status false true false = refl
verdict-else status false false d' = refl

pub aggregate_from-verdict :
    (status : Status) (checks : List Check)
    → aggregate_from status checks ≡ verdict status (any fails checks) (any degrades checks)
unfolding aggregate_from any
aggregate_from-verdict status [] = refl
aggregate_from-verdict status (c ∷ checks) = ground (
  arith,
  aggregate_from-verdict (if degrades c then degraded else status) checks,
  verdict-else status (any fails checks) (degrades c) (any degrades checks),
)
