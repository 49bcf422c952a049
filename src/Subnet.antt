-- ===== src/Subnet.antt =====
-- `struct subnet` (src/flowstatd.h), the part of `LoadConfig` (src/flowstatd.c) that fills one in
-- from an address and a prefix length, and the order that `main` sorts the subnets by.
pub mod Shape
pub mod Order
use flowstatd.Base.{
  ℕ, ◌+◌, ◌-◌, ◌*◌, ◌/◌, ◌%◌, ◌^◌, ltb, if◌then◌else◌, Run, done, undefined, ◌>>=◌, ℤ, signed32,
}
use flowstatd.Base.Words.{word32, htonl}

pub record Subnet : Type 0 where
  pub net : ℕ
  pub mask : ℕ
  pub mask_bits : ℕ
  pub ip_count : ℕ

-- `x << n` and `x >> n` on `uint32_t`; a count of 32 or more is undefined.
unfoldable pub shl32 : ℕ → ℕ → Run ℕ
shl32 x n = if ltb n 32 then done (x * 2 ^ n % word32) else undefined

unfoldable pub shr32 : ℕ → ℕ → Run ℕ
shr32 x n = if ltb n 32 then done (x / 2 ^ n) else undefined

-- `~x`, which is also `x ^ 0xffffffff`.
abbrev pub complement : ℕ → ℕ
complement x = 0xffff_ffff - x

-- An entry of `myNetwork` or `statedNetworks`. `mask_bits` is the 32-bit pattern of the `int`, so
-- the shift count `32 - mask_bits` wraps. The test `maskBits < 1 && maskBits > 32` never holds.
unfoldable pub make_subnet : ℕ → ℕ → Run Subnet
unfolding shl32
make_subnet addr mask_bits = do
  mask ← shl32 0xffff_ffff ((32 + word32 - mask_bits) % word32)
  done (record {
    net = addr;
    mask = htonl mask;
    mask_bits = mask_bits % 256;
    ip_count = (complement mask + 1) % word32;
  })

-- `RcvNetListCmp`: the difference is unsigned, and is returned as an `int`.
unfoldable pub rcv_net_list_cmp : Subnet → Subnet → ℤ
rcv_net_list_cmp a b = signed32 ((a.net + word32 - b.net) % word32)
