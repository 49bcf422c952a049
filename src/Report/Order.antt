-- ===== src/Report/Order.antt =====
-- What sorting by `HostFlowCmp` gives.
use flowstatd.Base.{ℕ, ◌≤◌, ◌↔◌, arith, List, [], ◌∷◌, All}
use flowstatd.Flow.{HostFlow}
use flowstatd.Report.{host_flow_cmp, IsNotAbove, IsOrdered, Qsort}

-- `HostFlowCmp` does not put one entry above another exactly if its sum is at least the other's.
pub host_flow_cmp_iff :
    (a b : HostFlow) → IsNotAbove (host_flow_cmp a b) ↔ (b.nflow.sum ≤ a.nflow.sum)
unfolding host_flow_cmp
host_flow_cmp_iff a b = ground arith

-- Every entry's sum is at least those of the entries behind it.
abbrev pub Descends : List HostFlow → Type 0
Descends [] = Unit
Descends (a ∷ hosts) = All (λ b. b.nflow.sum ≤ a.nflow.sum) hosts × Descends hosts

All-le_trans :
    (x y : ℕ) (hosts : List HostFlow)
    → y ≤ x
    → All (λ b. b.nflow.sum ≤ y) hosts
    → All (λ b. b.nflow.sum ≤ x) hosts
All-le_trans x y [] h all = tt
All-le_trans x y (b ∷ hosts) h all = (omega (arith, all.0), All-le_trans x y hosts h all.1)

pub IsOrdered-Descends : (hosts : List HostFlow) → IsOrdered host_flow_cmp hosts → Descends hosts
IsOrdered-Descends [] h = tt
IsOrdered-Descends (a ∷ []) h = (tt, tt)
IsOrdered-Descends (a ∷ b ∷ hosts) h =
    let below = (host_flow_cmp_iff a b).0 h.0 in
    let rest = IsOrdered-Descends (b ∷ hosts) h.1 in
    ((below, All-le_trans a.nflow.sum b.nflow.sum hosts below rest.0), rest)

-- Sorting by `HostFlowCmp` puts every entry before those with a smaller sum.
pub qsort-Descends : (q : Qsort) (hosts : List HostFlow) → Descends (q.qsort hosts)
qsort-Descends q hosts = IsOrdered-Descends (q.qsort hosts) (q.qsort-IsOrdered hosts)
