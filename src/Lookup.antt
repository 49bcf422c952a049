-- ===== src/Lookup.antt =====
-- `getIPIdx` (src/netflow.c): the index of an address in the flow table, by binary search over the
-- subnets.
pub mod Search
pub mod Index
pub mod Laws
pub mod Slots
use flowstatd.Base.{
  ℕ, zero, suc, ◌+◌, ◌-◌, ◌/◌, ◌%◌, ltb, ◌==◌, not, ◌&&◌, if◌then◌else◌, bit_and, compare, Ordering,
  true, false, List, [], ◌∷◌, length, get_elem?, Run, done, undefined, out_of_fuel, ◌>>=◌, Option,
  none, some, load, ℤ, negsuc, signed32,
}
use flowstatd.Base.Words.{word32}
use flowstatd.Subnet.{Subnet, complement, shr32}

-- `RET_IN_MYNET` and `RET_NOT_IN_MYNET`.
abbrev pub ret_in_mynet : ℤ
ret_in_mynet = negsuc 0

abbrev pub ret_not_in_mynet : ℤ
ret_not_in_mynet = negsuc 1

-- The `while` loop. `right` is `rightPos + 1`, so that `leftPos <= rightPos` is `left < right`.
-- `some mid` is the break with `isHit`.
unfoldable pub search_net : ℕ → List Subnet → ℕ → ℕ → ℕ → Run (Option ℕ)
search_net zero nets ipaddr left right = out_of_fuel
search_net (suc fuel) nets ipaddr left right = elim (ltb left right) [
  | false ↦ done none
  | true ↦
      let mid = left + (right - 1 - left) / 2 in
      elim (get_elem? nets mid) [
        | none ↦ undefined
        | some s ↦ elim (compare (bit_and ipaddr s.mask) s.net) [
          | Ordering.gt ↦ search_net fuel nets ipaddr (mid + 1) right
          | Ordering.lt ↦ search_net fuel nets ipaddr left mid
          | Ordering.eq ↦ done (some mid)
        ]
      ]
]

-- `for (k = 0; k < midPos; ++k) idx += rcvNetList[k].ipCount`, from `idx`.
unfoldable pub sum_counts : ℕ → List Subnet → ℕ → Run ℕ
sum_counts zero nets idx = done idx
sum_counts (suc k) [] idx = undefined
sum_counts (suc k) (s ∷ nets) idx = sum_counts k nets ((idx + s.ip_count) % word32)

-- `(ipaddr & ~mask) >> maskBits`.
unfoldable pub host_offset : Subnet → ℕ → Run ℕ
unfolding shr32
host_offset s ipaddr = shr32 (bit_and ipaddr (complement s.mask)) s.mask_bits

-- The index of a hit in the subnet `mid`.
unfoldable pub hit_index : List Subnet → ℕ → ℕ → Run ℤ
hit_index nets ipaddr mid = do
  idx ← sum_counts mid nets 0
  s ← load (get_elem? nets mid)
  offset ← host_offset s ipaddr
  done (signed32 ((idx + offset) % word32))

unfoldable pub get_ip_idx : List Subnet → Subnet → ℕ → Run ℤ
get_ip_idx nets my_net ipaddr = do
  hit ← search_net (length nets + 1) nets ipaddr 0 (length nets)
  elim hit [
    | some mid ↦ hit_index nets ipaddr mid
    | none ↦ done (
        if not (my_net.net == 0) && my_net.net == bit_and ipaddr my_net.mask
        then ret_in_mynet
        else ret_not_in_mynet)
  ]
