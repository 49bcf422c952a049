-- ===== src/Subnet/Order.antt =====
-- `RcvNetListCmp` against the order that the binary search compares by.
use flowstatd.Base.{◌+◌, ◌<◌, ◌≡◌, ◌↔◌, arith, ℤ, pos, negsuc}
use flowstatd.Base.Words.{word32}
use flowstatd.Subnet.{Subnet, rcv_net_list_cmp}

-- Below, equal to and above zero, as `qsort` reads a comparison.
abbrev pub IsNegative : ℤ → Type 0
IsNegative (pos n) = ⊥
IsNegative (negsuc n) = Unit

abbrev pub IsPositive : ℤ → Type 0
IsPositive (pos n) = 0 < n
IsPositive (negsuc n) = ⊥

-- Where two networks, as little-endian words, differ by less than 2^31, the comparison is negative,
-- zero or positive exactly when the first is below, equal to or above the second.
pub rcv_net_list_cmp_lem :
    (a b : Subnet)
    → a.net < b.net + 0x8000_0000
    → b.net < a.net + 0x8000_0000
    → a.net < word32
    → b.net < word32
    → (IsNegative (rcv_net_list_cmp a b) ↔ (a.net < b.net))
      × ((rcv_net_list_cmp a b ≡ pos 0) ↔ (a.net ≡ b.net))
      × (IsPositive (rcv_net_list_cmp a b) ↔ (b.net < a.net))
unfolding rcv_net_list_cmp
rcv_net_list_cmp_lem a b h k p q = ground arith

-- Where they differ by more than 2^31 the comparison says the opposite of the order.
pub rcv_net_list_cmp_far :
    (a b : Subnet)
    → a.net + 0x8000_0000 < b.net
    → b.net < word32
    → IsPositive (rcv_net_list_cmp a b) × IsNegative (rcv_net_list_cmp b a)
unfolding rcv_net_list_cmp
rcv_net_list_cmp_far a b h k = ground arith
