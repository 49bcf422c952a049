-- ===== src/Subnet/Shape.antt =====
-- What `make_subnet` builds from a prefix length.
use native.Mathlib.Nat.{pow-suc}
use flowstatd.Base.{
  ℕ, zero, suc, ◌+◌, ◌-◌, ◌*◌, ◌%◌, ◌^◌, ◌≤◌, ◌<◌, ◌≡◌, refl, sym, ap, ◌∙◌, ltb, arith, Returns,
  true,
}
use flowstatd.Base.Words.{word32, htonl}
use flowstatd.Base.Bits.{pow-add, pow_pos}
use flowstatd.Subnet.{Subnet, make_subnet}

-- A subnet with a prefix length from 1 to 31: a mask of that many leading ones, in network order,
-- and a count of the addresses that the other bits leave room for.
pub record IsValid (s : Subnet) : Type 0 where
  pub least : 1 ≤ s.mask_bits
  pub most : s.mask_bits ≤ 31
  pub masked : s.mask ≡ htonl (word32 - 2 ^ (32 - s.mask_bits))
  pub counted : s.ip_count ≡ 2 ^ (32 - s.mask_bits)

pub pow_split : (m : ℕ) → m ≤ 32 → 2 ^ m * 2 ^ (32 - m) ≡ word32
pow_split m h = sym (pow-add m (32 - m)) ∙ ap (λ (t : ℕ). 2 ^ t) (add-sub_of m h)
  where
    add-sub_of : (m : ℕ) → m ≤ 32 → m + (32 - m) ≡ 32
    add-sub_of m h = omega arith

two-le-pow : (m : ℕ) → 1 ≤ m → 2 ≤ 2 ^ m
two-le-pow zero h = absurd (omega arith)
two-le-pow (suc m) h = omega (arith, pow-suc 2 m, pow_pos m)

lt_of_mul : (p q w : ℕ) → p * q ≡ w → 2 ≤ p → 0 < q → q < w
lt_of_mul p q w e h k = grind arith

pub pow-host_lt : (m : ℕ) → 1 ≤ m → m ≤ 31 → 2 ^ (32 - m) < word32
pow-host_lt m l h =
    lt_of_mul (2 ^ m) (2 ^ (32 - m)) word32 (pow_split m (omega arith)) (two-le-pow m l)
      (pow_pos (32 - m))

-- What the shift of `0xffffffff` leaves.
ones_shifted : (p : ℕ) → 0 < p → p < word32 → 0xffff_ffff * p % word32 ≡ word32 - p
ones_shifted p h k = omega arith

-- A prefix length from 1 to 31 gives a valid subnet with the address that was read.
pub make_subnet-IsValid :
    (addr m : ℕ)
    → 1 ≤ m
    → m ≤ 31
    → Returns (make_subnet addr m) (λ s. IsValid s × (s.net ≡ addr) × (s.mask_bits ≡ m))
unfolding make_subnet
make_subnet-IsValid addr m l h =
    let p : ℕ = 2 ^ (32 - m) in
    let count : (32 + word32 - m) % word32 ≡ 32 - m = omega arith in
    let fits : ltb (32 - m) 32 ≡ true = ground arith in
    let bits : m % 256 ≡ m = omega arith in
    let small : p < word32 = pow-host_lt m l h in
    let rest : 0xffff_ffff * p % word32 ≡ word32 - p = ones_shifted p (pow_pos (32 - m)) small in
    rw (count, fits, rest, bits)
      (
        record { least = l; most = h; masked = refl; counted = omega (arith, pow_pos (32 - m)) },
        refl,
        refl,
      )
