-- ===== src/Base/Words.antt =====
-- Machine words as native numbers, and the bytes of a packet. The host is little-endian.
use Prim.Native.Nat.{ℕ, ◌+◌, ◌*◌, ◌/◌, ◌%◌, ◌<◌}
use mathlib.Core.Path.{◌≡◌}
use mathlib.Core.List.{List}
use native.Mathlib.Omega.{arith}
use flowstatd.Base.Outcome.{Run, done, ◌>>=◌, load}
use flowstatd.Base.Lists.{get_elem?}

abbrev pub word16 : ℕ
word16 = 0x1_0000

abbrev pub word32 : ℕ
word32 = 0x1_0000_0000

abbrev pub word64 : ℕ
word64 = 0x1_0000_0000_0000_0000

-- `htonl` and `ntohl` on a little-endian host: the four bytes in reverse.
unfoldable pub htonl : ℕ → ℕ
htonl x =
    x % 256 * 0x100_0000
    + x / 0x100 % 256 * 0x1_0000
    + x / 0x1_0000 % 256 * 0x100
    + x / 0x100_0000 % 256

pub htonl-lt : (x : ℕ) → htonl x < word32
unfolding htonl
htonl-lt x = omega arith

pub htonl-htonl : (x : ℕ) → x < word32 → htonl (htonl x) ≡ x
unfolding htonl
htonl-htonl x h = omega arith

-- `ntohs(*(uint16_t *) p)`: two bytes, the most significant first.
unfoldable pub read_be16 : List ℕ → ℕ → Run ℕ
read_be16 buf p = do
  a ← load (get_elem? buf p)
  b ← load (get_elem? buf (p + 1))
  done (a * 0x100 + b)

-- `ntohl(*(uint32_t *) p)`.
unfoldable pub read_be32 : List ℕ → ℕ → Run ℕ
read_be32 buf p = do
  a ← load (get_elem? buf p)
  b ← load (get_elem? buf (p + 1))
  c ← load (get_elem? buf (p + 2))
  d ← load (get_elem? buf (p + 3))
  done (a * 0x100_0000 + b * 0x1_0000 + c * 0x100 + d)

-- `*(in_addr_t *) p` with no conversion: the first byte is the least significant.
unfoldable pub read_addr : List ℕ → ℕ → Run ℕ
read_addr buf p = do
  a ← load (get_elem? buf p)
  b ← load (get_elem? buf (p + 1))
  c ← load (get_elem? buf (p + 2))
  d ← load (get_elem? buf (p + 3))
  done (a + b * 0x100 + c * 0x1_0000 + d * 0x100_0000)
