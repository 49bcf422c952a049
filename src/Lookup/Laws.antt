-- ===== src/Lookup/Laws.antt =====
-- What `getIPIdx` returns.
use flowstatd.Base.{
  ℕ, ◌+◌, ◌<◌, ◌≡◌, refl, arith, ◌==◌, not, ◌&&◌, if◌then◌else◌, bit_and, List, length, get_elem?,
  get_elem?-lt, All, Run, done, Returns, Option, none, some, ℤ, pos, negsuc,
}
use flowstatd.Base.Words.{word32}
use flowstatd.Subnet.{Subnet}
use flowstatd.Subnet.Shape.{IsValid}
use flowstatd.Lookup.{search_net, get_ip_idx}
use flowstatd.Lookup.Search.{Covers, search_net-Covers, IsUniform, search_net_complete}
use flowstatd.Lookup.Index.{total, total_before, offset_of, hit_index_exact}

-- A result: the place of the address in the block of a subnet that covers it, or one of the two
-- negative codes, by whether `myNetwork` covers the address.
abbrev pub Answers : List Subnet → Subnet → ℕ → ℤ → Type 0
Answers nets my_net ipaddr (pos i) =
    (k : ℕ) × (s : Subnet) × (get_elem? nets k ≡ some s)
    × (bit_and ipaddr s.mask ≡ s.net)
    × (i ≡ total_before k nets + offset_of s ipaddr)
    × (i < total nets)
Answers nets my_net ipaddr (negsuc c) =
    (c ≡ (if not (my_net.net == 0) && my_net.net == bit_and ipaddr my_net.mask then 0 else 1))

module _ (nets : List Subnet) (my_net : Subnet) (ipaddr : ℕ) (valid : All IsValid nets)
    (small : total nets < 0x8000_0000) (fits : ipaddr < word32) where
  -- what follows the search
  get_ip_idx_after :
      (m : Run (Option ℕ))
      → search_net (length nets + 1) nets ipaddr 0 (length nets) ≡ m
      → Returns m (Covers nets ipaddr)
      → Returns (get_ip_idx nets my_net ipaddr) (Answers nets my_net ipaddr)
  unfolding get_ip_idx
  get_ip_idx_after (done none) e h = rw e (ground arith)
  get_ip_idx_after (done (some mid)) e (s, at_mid, covered) =
      let (index, bound) = hit_index_exact nets ipaddr mid s valid small fits at_mid in
      rw (e, index) (mid, s, at_mid, covered, refl, bound)
  get_ip_idx_after Run.undefined e h = absurd h
  get_ip_idx_after Run.out_of_fuel e h = absurd h

  -- With valid subnets of fewer than 2^31 addresses in all, `getIPIdx` returns for every address. A
  -- result from 0 on is below the number of addresses, and is the place of the address in the block
  -- of a subnet that covers it; a negative result is -1 if `myNetwork` covers the address, else -2.
  pub get_ip_idx-Answers : Returns (get_ip_idx nets my_net ipaddr) (Answers nets my_net ipaddr)
  get_ip_idx-Answers =
      get_ip_idx_after _ refl (
        search_net-Covers nets ipaddr (length nets + 1) 0 (length nets) (omega arith) (omega arith))

-- With valid subnets of fewer than 2^31 addresses in all, one mask for all of them and strictly
-- ascending networks, every 32-bit address that a subnet covers is found, at its place in that
-- subnet's block.
pub get_ip_idx_complete :
    {mask : ℕ} {nets : List Subnet} (my_net : Subnet) (ipaddr k : ℕ) (s : Subnet)
    → IsUniform mask nets
    → All IsValid nets
    → total nets < 0x8000_0000
    → ipaddr < word32
    → get_elem? nets k ≡ some s
    → bit_and ipaddr mask ≡ s.net
    → get_ip_idx nets my_net ipaddr ≡ done (pos (total_before k nets + offset_of s ipaddr))
unfolding get_ip_idx
get_ip_idx_complete {nets} my_net ipaddr k s uniform valid small fits at_k covered =
    rw
      (search_net_complete uniform ipaddr k s at_k covered (length nets + 1) 0 (length nets)
        (omega arith) (omega arith) (omega arith) (get_elem?-lt nets k at_k))
      (hit_index_exact nets ipaddr k s valid small fits at_k).0
