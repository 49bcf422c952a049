-- ===== src/Lookup/Slots.antt =====
-- Which addresses share a place in the flow table.
use native.Mathlib.Nat.{mul-div_cancel}
use flowstatd.Base.{
  ℕ, ◌+◌, ◌*◌, ◌/◌, ◌^◌, ◌<◌, ◌≡◌, ◌⊎◌, refl, ap, ◌∙◌, sym, inl, inr, arith, bit_and, List,
  get_elem?, All, All-get_elem?, done, some, pos,
}
use flowstatd.Base.Words.{word32, htonl}
use flowstatd.Base.Bits.{ones, bit_and-ones, bit_and-complement, pow_pos}
use flowstatd.Subnet.{Subnet, complement}
use flowstatd.Subnet.Shape.{IsValid}
use flowstatd.Lookup.{get_ip_idx}
use flowstatd.Lookup.Index.{total, total_before, total_before-step, offset_of, offset_of-lt}
use flowstatd.Lookup.Laws.{Answers, get_ip_idx-Answers}

-- The prefix ends between two bytes of the address.
abbrev pub IsAligned : Subnet → Type 0
IsAligned s = (s.mask_bits ≡ 8) ⊎ (s.mask_bits ≡ 16) ⊎ (s.mask_bits ≡ 24)

split_ones :
    (m a : ℕ)
    → a < word32
    → ones m < word32
    → bit_and a (ones m) + bit_and a (complement (ones m)) / 2 ^ m * 2 ^ m ≡ a
split_ones m a h k =
    let (q, e, low) = bit_and-ones m a in
    let both = bit_and-complement 32 a (ones m) (omega arith) (omega arith) in
    let high : bit_and a (complement (ones m)) ≡ q * 2 ^ m = omega arith in
    rw (high, mul-div_cancel q (pow_pos m)) (omega arith)

aligned_ones : (s : Subnet) → IsValid s → IsAligned s → s.mask ≡ ones s.mask_bits
unfolding htonl
aligned_ones s valid (inl e) = valid.masked ∙ rw e refl
aligned_ones s valid (inr (inl e)) = valid.masked ∙ rw e refl
aligned_ones s valid (inr (inr e)) = valid.masked ∙ rw e refl

ones-lt_aligned : (s : Subnet) → IsAligned s → ones s.mask_bits < word32
ones-lt_aligned s (inl e) = rw e (omega arith)
ones-lt_aligned s (inr (inl e)) = rw e (omega arith)
ones-lt_aligned s (inr (inr e)) = rw e (omega arith)

-- In an aligned subnet an address is its network plus its offset above the prefix.
pub offset_of-split :
    (s : Subnet) (ipaddr : ℕ)
    → IsValid s
    → IsAligned s
    → ipaddr < word32
    → bit_and ipaddr s.mask + offset_of s ipaddr * 2 ^ s.mask_bits ≡ ipaddr
offset_of-split s ipaddr valid aligned fits =
    rw (aligned_ones s valid aligned)
      (split_ones s.mask_bits ipaddr fits (ones-lt_aligned s aligned))

-- Two indices in the table are equal only in one block, at one offset.
same_block :
    (nets : List Subnet) (j k : ℕ) (s t : Subnet) (o p : ℕ)
    → get_elem? nets j ≡ some s
    → get_elem? nets k ≡ some t
    → o < s.ip_count
    → p < t.ip_count
    → total_before j nets + o ≡ total_before k nets + p
    → (s ≡ t) × (o ≡ p)
same_block nets j k s t o p at_j at_k ho hp e =
    let same : j ≡ k = ground (arith, total_before-step j k nets s, total_before-step k j nets t) in
    ground arith

same_address :
    (s t : Subnet) (a b : ℕ)
    → IsValid s
    → IsAligned s
    → a < word32
    → b < word32
    → bit_and a s.mask ≡ s.net
    → bit_and b t.mask ≡ t.net
    → s ≡ t
    → offset_of s a ≡ offset_of t b
    → a ≡ b
same_address s t a b valid aligned fa fb cover_a cover_b e o =
    let cover_b' : bit_and b s.mask ≡ s.net = rw e cover_b in
    let o' : offset_of s a ≡ offset_of s b = o ∙ ap (λ (u : Subnet). offset_of u b) (sym e) in
    omega (
      arith,
      offset_of-split s a valid aligned fa,
      offset_of-split s b valid aligned fb,
      ap (λ (x : ℕ). x * 2 ^ s.mask_bits) o',
    )

-- With valid subnets whose prefixes end between bytes, two addresses that `getIPIdx` maps to one
-- index of the flow table are the same address.
pub get_ip_idx_injective :
    (nets : List Subnet) (my_net : Subnet) (a b i : ℕ)
    → All IsValid nets
    → All IsAligned nets
    → total nets < 0x8000_0000
    → a < word32
    → b < word32
    → get_ip_idx nets my_net a ≡ done (pos i)
    → get_ip_idx nets my_net b ≡ done (pos i)
    → a ≡ b
get_ip_idx_injective nets my_net a b i valid aligned small fa fb ea eb =
    let answer_a : Answers nets my_net a (pos i) =
      rw ea at (get_ip_idx-Answers nets my_net a valid small fa) in
    let answer_b : Answers nets my_net b (pos i) =
      rw eb at (get_ip_idx-Answers nets my_net b valid small fb) in
    let (j, s, at_j, cover_a, place_a, _) = answer_a in
    let (k, t, at_k, cover_b, place_b, _) = answer_b in
    let vs = All-get_elem? IsValid nets j valid at_j in
    let vt = All-get_elem? IsValid nets k valid at_k in
    let (nets_eq, offsets_eq) =
      same_block nets j k s t (offset_of s a) (offset_of t b) at_j at_k (offset_of-lt s vs a fa)
        (offset_of-lt t vt b fb) (sym place_a ∙ place_b) in
    let aligned_s = All-get_elem? IsAligned nets j aligned at_j in
    same_address s t a b vs aligned_s fa fb cover_a cover_b nets_eq offsets_eq
