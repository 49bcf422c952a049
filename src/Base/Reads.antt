-- ===== src/Base/Reads.antt =====
-- Reads inside a buffer of bytes return, and give a value of their width.
use Prim.Native.Nat.{ℕ, ◌+◌, ◌*◌, ◌≤◌, ◌<◌}
use mathlib.Core.Path.{◌≡◌, subst}
use mathlib.Core.List.{List}
use mathlib.Core.Option.{some}
use native.Mathlib.Omega.{arith}
use flowstatd.Base.Outcome.{
  done, Returns, Returns-done, undefined, Ends, >>=-Ends, Whenever, Ends-Whenever, ◌>>=◌, load,
}
use flowstatd.Base.Lists.{length, get_elem?, get_elem?-some, get_elem?-none, All, All-get_elem?}
use flowstatd.Base.Tests.{Option-cases}
use mathlib.Core.Logic.{inl, inr}
use flowstatd.Base.Words.{word16, word32, read_be16, read_be32, read_addr}

abbrev pub IsBytes : List ℕ → Type 0
IsBytes = All (λ b. b < 256)

module _ (buf : List ℕ) (bytes : IsBytes buf) where
  byte : (p : ℕ) → p < length buf → (b : ℕ) × (get_elem? buf p ≡ some b) × (b < 256)
  byte p h =
      let (b, e) = get_elem?-some buf p h in (b, e, All-get_elem? (λ b. b < 256) buf p bytes e)

  pub read_be16-Returns : (p : ℕ) → p + 2 ≤ length buf → Returns (read_be16 buf p) (λ v. v < word16)
  unfolding read_be16
  read_be16-Returns p h =
      let (a, ea, la) = byte p (omega arith) in
      let (b, eb, lb) = byte (p + 1) (omega arith) in rw (ea, eb) (omega arith)

  pub read_be32-Returns : (p : ℕ) → p + 4 ≤ length buf → Returns (read_be32 buf p) (λ v. v < word32)
  unfolding read_be32
  read_be32-Returns p h =
      let (a, ea, la) = byte p (omega arith) in
      let (b, eb, lb) = byte (p + 1) (omega arith) in
      let (c, ec, lc) = byte (p + 2) (omega arith) in
      let (d, ed, ld) = byte (p + 3) (omega arith) in rw (ea, eb, ec, ed) (omega arith)

  pub read_addr-Returns : (p : ℕ) → p + 4 ≤ length buf → Returns (read_addr buf p) (λ v. v < word32)
  unfolding read_addr
  read_addr-Returns p h =
      let (a, ea, la) = byte p (omega arith) in
      let (b, eb, lb) = byte (p + 1) (omega arith) in
      let (c, ec, lc) = byte (p + 2) (omega arith) in
      let (d, ed, ld) = byte (p + 3) (omega arith) in rw (ea, eb, ec, ed) (omega arith)

  -- The value of a read, with its width.
  pub read_be16_some :
      (p : ℕ) → p + 2 ≤ length buf → (v : ℕ) × (read_be16 buf p ≡ done v) × (v < word16)
  read_be16_some p h = Returns-done (read_be16 buf p) (λ v. v < word16) (read_be16-Returns p h)

  pub read_be32_some :
      (p : ℕ) → p + 4 ≤ length buf → (v : ℕ) × (read_be32 buf p ≡ done v) × (v < word32)
  read_be32_some p h = Returns-done (read_be32 buf p) (λ v. v < word32) (read_be32-Returns p h)

  pub read_addr_some :
      (p : ℕ) → p + 4 ≤ length buf → (v : ℕ) × (read_addr buf p ≡ done v) × (v < word32)
  read_addr_some p h = Returns-done (read_addr buf p) (λ v. v < word32) (read_addr-Returns p h)

-- A read that begins past the end of the buffer.
pub read_be32_past : (buf : List ℕ) (p : ℕ) → length buf ≤ p → read_be32 buf p ≡ undefined
unfolding read_be32
read_be32_past buf p h = rw (get_elem?-none buf p h)

-- Two buffers hold the same bytes from `p` on, for `n` bytes.
abbrev pub AgreeAt : List ℕ → List ℕ → ℕ → ℕ → Type 0
AgreeAt buf other p n = (i : ℕ) → i < n → get_elem? buf (p + i) ≡ get_elem? other (p + i)

module _ (buf other : List ℕ) (p : ℕ) where
  at_zero : (n : ℕ) → 0 < n → AgreeAt buf other p n → get_elem? buf p ≡ get_elem? other p
  at_zero n h agree = subst (λ q. get_elem? buf q ≡ get_elem? other q) (omega arith) (agree 0 h)

  pub read_be32-agree : AgreeAt buf other p 4 → read_be32 buf p ≡ read_be32 other p
  unfolding read_be32
  read_be32-agree agree = rw (
    at_zero 4 (omega arith) agree,
    agree 1 (omega arith),
    agree 2 (omega arith),
    agree 3 (omega arith),
  )

  pub read_be16-agree : AgreeAt buf other p 2 → read_be16 buf p ≡ read_be16 other p
  unfolding read_be16
  read_be16-agree agree = rw (at_zero 2 (omega arith) agree, agree 1 (omega arith))

  pub read_addr-agree : AgreeAt buf other p 4 → read_addr buf p ≡ read_addr other p
  unfolding read_addr
  read_addr-agree agree = rw (
    at_zero 4 (omega arith) agree,
    agree 1 (omega arith),
    agree 2 (omega arith),
    agree 3 (omega arith),
  )

-- A read anywhere: a value of its width, or undefined.
module _ (buf : List ℕ) (bytes : IsBytes buf) where
  load_byte-Ends : (p : ℕ) → Ends (load (get_elem? buf p)) (λ b. b < 256)
  load_byte-Ends p = elim (Option-cases (get_elem? buf p)) [
    | inl e ↦ rw e tt
    | inr (b, e) ↦ rw e (All-get_elem? (λ b. b < 256) buf p bytes e)
  ]

  pub read_be16-Ends : (p : ℕ) → Ends (read_be16 buf p) (λ v. v < word16)
  unfolding read_be16
  read_be16-Ends p =
      >>=-Ends (load (get_elem? buf p)) _ (λ b. b < 256) (λ v. v < word16) (load_byte-Ends p)
        λ a la.
          >>=-Ends (load (get_elem? buf (p + 1))) _ (λ b. b < 256) (λ v. v < word16)
            (load_byte-Ends (p + 1)) λ b lb. omega arith

  four_bytes-Ends :
      (p : ℕ) (f : ℕ → ℕ → ℕ → ℕ → ℕ)
      → ((a b c d : ℕ) → a < 256 → b < 256 → c < 256 → d < 256 → f a b c d < word32)
      → Ends
          (load (get_elem? buf p) >>= λ a. load (get_elem? buf (p + 1)) >>= λ b.
            load (get_elem? buf (p + 2)) >>= λ c.
            load (get_elem? buf (p + 3)) >>= λ d. done (f a b c d))
          (λ v. v < word32)
  four_bytes-Ends p f h =
      >>=-Ends (load (get_elem? buf p)) _ (λ b. b < 256) (λ v. v < word32) (load_byte-Ends p)
        λ a la.
          >>=-Ends (load (get_elem? buf (p + 1))) _ (λ b. b < 256) (λ v. v < word32)
            (load_byte-Ends (p + 1))
            λ b lb.
              >>=-Ends (load (get_elem? buf (p + 2))) _ (λ b. b < 256) (λ v. v < word32)
                (load_byte-Ends (p + 2))
                λ c lc.
                  >>=-Ends (load (get_elem? buf (p + 3))) _ (λ b. b < 256) (λ v. v < word32)
                    (load_byte-Ends (p + 3)) λ d ld. h a b c d la lb lc ld

  pub read_be32-Ends : (p : ℕ) → Ends (read_be32 buf p) (λ v. v < word32)
  unfolding read_be32
  read_be32-Ends p =
      four_bytes-Ends p (λ a b c d. a * 0x100_0000 + b * 0x1_0000 + c * 0x100 + d)
        (λ a b c d la lb lc ld. omega arith)

  pub read_addr-Ends : (p : ℕ) → Ends (read_addr buf p) (λ v. v < word32)
  unfolding read_addr
  read_addr-Ends p =
      four_bytes-Ends p (λ a b c d. a + b * 0x100 + c * 0x1_0000 + d * 0x100_0000)
        (λ a b c d la lb lc ld. omega arith)

  pub read_addr-Whenever : (p : ℕ) → Whenever (read_addr buf p) (λ v. v < word32)
  read_addr-Whenever p = Ends-Whenever (read_addr buf p) (λ v. v < word32) (read_addr-Ends p)
