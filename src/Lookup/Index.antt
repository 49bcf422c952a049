-- ===== src/Lookup/Index.antt =====
-- The index that `getIPIdx` computes for a hit: the addresses of the subnets before, and the offset.
use flowstatd.Base.{
  ℕ, zero, suc, ◌+◌, ◌-◌, ◌/◌, ◌%◌, ◌^◌, ◌≤◌, ◌<◌, ◌≡◌, ap, ◌∙◌, arith, ltb, bit_and, List, [], ◌∷◌,
  length, get_elem?, get_elem?-lt, All, All-get_elem?, done, some, pos, signed32_small, true,
}
use flowstatd.Base.Words.{word32}
use flowstatd.Base.Bits.{bit_and-le, div-lt}
use flowstatd.Subnet.{Subnet, complement}
use flowstatd.Subnet.Shape.{IsValid, pow_split}
use flowstatd.Lookup.{sum_counts, host_offset, hit_index}

-- The addresses of all subnets: what `LoadConfig` adds up in `sumIpCount`.
abbrev pub total : List Subnet → ℕ
total [] = 0
total (s ∷ nets) = s.ip_count + total nets

-- The addresses of the first `k` subnets.
abbrev pub total_before : ℕ → List Subnet → ℕ
total_before zero nets = 0
total_before (suc k) [] = 0
total_before (suc k) (s ∷ nets) = s.ip_count + total_before k nets

pub total_before-room :
    (k : ℕ) (nets : List Subnet) (s : Subnet)
    → get_elem? nets k ≡ some s
    → total_before k nets + s.ip_count ≤ total nets
total_before-room k [] s e = cc
total_before-room zero (t ∷ nets) s e = ground arith
total_before-room (suc k) (t ∷ nets) s e = omega (arith, total_before-room k nets s e)

-- The blocks of addresses of two subnets do not overlap.
pub total_before-step :
    (j k : ℕ) (nets : List Subnet) (s : Subnet)
    → j < k
    → get_elem? nets j ≡ some s
    → total_before j nets + s.ip_count ≤ total_before k nets
total_before-step j k [] s h e = cc
total_before-step j zero (t ∷ nets) s h e = absurd (omega arith)
total_before-step zero (suc k) (t ∷ nets) s h e = ground arith
total_before-step (suc j) (suc k) (t ∷ nets) s h e =
    omega (arith, total_before-step j k nets s (omega arith) e)

pub sum_counts_exact :
    (k : ℕ) (nets : List Subnet) (idx : ℕ)
    → k ≤ length nets
    → idx + total nets < word32
    → sum_counts k nets idx ≡ done (idx + total_before k nets)
unfolding sum_counts
sum_counts_exact zero nets idx h small = ap done (omega arith)
sum_counts_exact (suc k) [] idx h small = absurd (omega arith)
sum_counts_exact (suc k) (s ∷ nets) idx h small =
    let e : (idx + s.ip_count) % word32 ≡ idx + s.ip_count = omega arith in
    rw e (
      sum_counts_exact k nets (idx + s.ip_count) (omega arith) (omega arith)
      ∙ ap done (omega arith))

-- The number that `host_offset` returns.
abbrev pub offset_of : Subnet → ℕ → ℕ
offset_of s ipaddr = bit_and ipaddr (complement s.mask) / 2 ^ s.mask_bits

module _ (s : Subnet) (valid : IsValid s) (ipaddr : ℕ) where
  pub host_offset_exact : host_offset s ipaddr ≡ done (offset_of s ipaddr)
  unfolding host_offset
  host_offset_exact = let e : ltb s.mask_bits 32 ≡ true = ground (arith, valid.most) in rw e

  -- The offset of an address stays within the subnet's block.
  pub offset_of-lt : ipaddr < word32 → offset_of s ipaddr < s.ip_count
  offset_of-lt small = rw valid.counted (
      div-lt _ (2 ^ s.mask_bits) (2 ^ (32 - s.mask_bits)) (
        rw (pow_split s.mask_bits (omega (arith, valid.most)))
          (omega (arith, bit_and-le ipaddr (complement s.mask)))))

-- For a subnet of the table the index is its block's start plus the offset, below the table's size.
pub hit_index_exact :
    (nets : List Subnet) (ipaddr k : ℕ) (s : Subnet)
    → All IsValid nets
    → total nets < 0x8000_0000
    → ipaddr < word32
    → get_elem? nets k ≡ some s
    → (hit_index nets ipaddr k ≡ done (pos (total_before k nets + offset_of s ipaddr)))
      × (total_before k nets + offset_of s ipaddr < total nets)
unfolding hit_index
hit_index_exact nets ipaddr k s valid small fits e =
    let v = All-get_elem? IsValid nets k valid e in
    let sum = sum_counts_exact k nets 0 (omega (arith, get_elem?-lt nets k e)) (omega arith) in
    let room = total_before-room k nets s e in
    let inside = offset_of-lt s v ipaddr fits in
    let bound : total_before k nets + offset_of s ipaddr < total nets = omega arith in
    let whole : (0 + total_before k nets + offset_of s ipaddr) % word32
        ≡ total_before k nets + offset_of s ipaddr =
      omega arith in
    (
      rw (sum, e, host_offset_exact s v ipaddr, whole) (ap done (signed32_small _ (omega arith))),
      bound,
    )
