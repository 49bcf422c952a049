-- ===== src/Lookup/Search.antt =====
-- The binary search of `getIPIdx`: it ends, stays inside the array, and finds what it should.
use flowstatd.Base.{
  ℕ, zero, suc, ◌+◌, ◌-◌, ◌/◌, ◌≤◌, ◌<◌, ◌≡◌, inl, inr, arith, ltb, bit_and, Bool-cases, List,
  length, get_elem?, get_elem?-some, done, Returns, Option, none, some,
}
use flowstatd.Subnet.{Subnet}
use flowstatd.Lookup.{search_net}

-- The entry at `mid` covers the address; nothing is said of a miss.
abbrev pub Covers : List Subnet → ℕ → Option ℕ → Type 0
Covers nets ipaddr none = Unit
Covers nets ipaddr (some mid) =
    (s : Subnet) × (get_elem? nets mid ≡ some s) × (bit_and ipaddr s.mask ≡ s.net)

module _ (nets : List Subnet) (ipaddr : ℕ) where
  pub search_net-Covers :
      (fuel left right : ℕ)
      → right ≤ length nets
      → right - left < fuel
      → Returns (search_net fuel nets ipaddr left right) (Covers nets ipaddr)
  unfolding search_net
  search_net-Covers zero left right h k = absurd (omega arith)
  search_net-Covers (suc fuel) left right h k = elim (Bool-cases (ltb left right)) [
    | inr empty ↦ rw (empty, search_net) tt
    | inl go ↦
        let mid = left + (right - 1 - left) / 2 in
        let (s, e) = get_elem?-some nets mid (ground arith) in
        ground (arith, e, search_net-Covers fuel (mid + 1) right, search_net-Covers fuel left mid)
  ]

-- The subnets have one mask and ascend strictly, as after sorting distinct networks of one size.
pub record IsUniform (mask : ℕ) (nets : List Subnet) : Type 0 where
  pub same : (i : ℕ) (s : Subnet) → get_elem? nets i ≡ some s → s.mask ≡ mask
  pub ascending :
      (i j : ℕ) (s t : Subnet)
      → i < j
      → get_elem? nets i ≡ some s
      → get_elem? nets j ≡ some t
      → s.net < t.net

module _ {mask : ℕ} {nets : List Subnet} (uniform : IsUniform mask nets) (ipaddr k : ℕ) (s : Subnet)
    (at_k : get_elem? nets k ≡ some s) (covered : bit_and ipaddr mask ≡ s.net) where
  -- With one mask for all, the search finds the entry that covers the address.
  pub search_net_complete :
      (fuel left right : ℕ)
      → right ≤ length nets
      → right - left < fuel
      → left ≤ k
      → k < right
      → search_net fuel nets ipaddr left right ≡ done (some k)
  unfolding search_net
  search_net_complete zero left right h m lo hi = absurd (omega arith)
  search_net_complete (suc fuel) left right h m lo hi =
      let mid = left + (right - 1 - left) / 2 in
      let (t, e) = get_elem?-some nets mid (omega arith) in
      ground (
        arith,
        e,
        at_k,
        covered,
        uniform.same mid t,
        uniform.ascending mid k t s,
        uniform.ascending k mid s t,
        search_net_complete fuel (mid + 1) right,
        search_net_complete fuel left mid,
      )
