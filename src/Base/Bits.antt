-- ===== src/Base/Bits.antt =====
-- Facts about `&` at variables, from the digit recursion that the native operation stands for.
use Prim.Native.Nat.{
  ℕ, zero, suc, ◌+◌, ◌-◌, ◌*◌, ◌/◌, ◌%◌, ◌^◌, ◌≤◌, ◌<◌, min, bit_and, digits, bit_and-bitwise,
}
use mathlib.Core.Path.{◌≡◌, refl, ap, ◌∙◌}
use mathlib.Core.Logic.{inl, inr}
use native.Mathlib.Nat.{pow-suc, zero-add, suc-add}
use native.Mathlib.Omega.{arith}
use flowstatd.Base.Tests.{leb, Bool-cases}

-- The digits that two numbers share, in at most `rounds` rounds.
abbrev shared : ℕ → ℕ → ℕ → ℕ
shared rounds x y = digits (λ rest. zero) min rounds x y

bit_and-shared : (x y : ℕ) → bit_and x y ≡ shared x x y
bit_and-shared x y = bit_and-bitwise x y

-- A round more than the number has makes no difference.
shared-suc : (rounds x y : ℕ) → x ≤ rounds → shared (suc rounds) x y ≡ shared rounds x y
shared-suc zero zero y enough = refl
shared-suc (suc rounds) zero y enough = refl
shared-suc zero (suc x) y enough = absurd (omega arith)
shared-suc (suc rounds) (suc x) y enough =
    let tail = shared-suc rounds (suc x / 2) (y / 2) (omega arith) in omega (arith, tail)

shared-le_rounds :
    (most rounds x y : ℕ) → x ≤ rounds → rounds ≤ most → shared most x y ≡ shared rounds x y
shared-le_rounds zero rounds x y enough below =
    ap (λ (r : ℕ). shared r x y) {x = zero} {y = rounds} (omega arith)
shared-le_rounds (suc most) rounds x y enough below = elim (Bool-cases (leb rounds most)) [
  | inl under ↦
      shared-suc most x y (ground arith) ∙ shared-le_rounds most rounds x y enough (ground arith)
  | inr over ↦ ap (λ (r : ℕ). shared r x y) {x = suc most} {y = rounds} (ground arith)
]

-- One binary digit of `&`.
pub bit_and_step : (a b : ℕ) → bit_and a b ≡ bit_and (a / 2) (b / 2) * 2 + min (a % 2) (b % 2)
bit_and_step zero b =
    let left = bit_and-shared 0 b in
    let right = bit_and-shared 0 (b / 2) in omega (arith, left, right)
bit_and_step (suc a) b =
    let half = suc a / 2 in
    let whole = bit_and-shared (suc a) b in
    let part = bit_and-shared half (b / 2) in
    let rounds = shared-le_rounds a half half (b / 2) (omega arith) (omega arith) in
    omega (arith, whole, part, rounds)

shared-le : (rounds x y : ℕ) → shared rounds x y ≤ x
shared-le zero x y = omega arith
shared-le (suc rounds) zero y = omega arith
shared-le (suc rounds) (suc x) y =
    let tail = shared-le rounds (suc x / 2) (y / 2) in omega (arith, tail)

-- `a & b` is at most `a`.
pub bit_and-le : (a b : ℕ) → bit_and a b ≤ a
bit_and-le a b = omega (arith, bit_and-shared a b, shared-le a a b)

shared-zero : (rounds x : ℕ) → shared rounds x 0 ≡ 0
shared-zero zero x = omega arith
shared-zero (suc rounds) zero = refl
shared-zero (suc rounds) (suc x) = let tail = shared-zero rounds (suc x / 2) in omega (arith, tail)

pub bit_and-zero : (a : ℕ) → bit_and a 0 ≡ 0
bit_and-zero a = bit_and-shared a 0 ∙ shared-zero a a

-- `2 ^ k - 1`, digit by digit.
abbrev pub ones : ℕ → ℕ
ones zero = 0
ones (suc k) = 2 * ones k + 1

-- A mask of k ones keeps the low k digits: what is left over is a multiple of `2 ^ k`.
pub bit_and-ones :
    (k a : ℕ) → (q : ℕ) × (a ≡ q * 2 ^ k + bit_and a (ones k)) × (bit_and a (ones k) < 2 ^ k)
bit_and-ones zero a = (a, omega (arith, bit_and-zero a), omega (arith, bit_and-zero a))
bit_and-ones (suc k) a =
    let (q, e, h) = bit_and-ones k (a / 2) in
    (
      q,
      omega (
        arith,
        bit_and_step a (2 * ones k + 1),
        pow-suc 2 k,
        ap (λ (t : ℕ). q * t) (pow-suc 2 k),
        half_ones k a,
      ),
      omega (arith, bit_and_step a (2 * ones k + 1), pow-suc 2 k, half_ones k a),
    )
  where
    half_ones : (k a : ℕ) → bit_and (a / 2) ((2 * ones k + 1) / 2) ≡ bit_and (a / 2) (ones k)
    half_ones k a = ap (bit_and (a / 2)) (omega arith)

-- A word is the sum of the digits that a mask keeps and of those that its complement keeps.
pub bit_and-complement :
    (k a m : ℕ) → a ≤ ones k → m ≤ ones k → bit_and a m + bit_and a (ones k - m) ≡ a
bit_and-complement zero a m h p = omega (arith, bit_and-le a m, bit_and-le a (0 - m))
bit_and-complement (suc k) a m h p = omega (
  arith,
  bit_and_step a m,
  bit_and_step a (2 * ones k + 1 - m),
  bit_and-complement k (a / 2) (m / 2) (omega arith) (omega arith),
  ap (bit_and (a / 2)) (half_complement (ones k) m p),
)
  where
    half_complement : (o m : ℕ) → m ≤ 2 * o + 1 → (2 * o + 1 - m) / 2 ≡ o - m / 2
    half_complement o m h = omega arith

pub pow-add : (m n : ℕ) → 2 ^ (m + n) ≡ 2 ^ m * 2 ^ n
pow-add zero n = omega (arith, ap (λ (t : ℕ). 2 ^ t) (zero-add n))
pow-add (suc m) n = omega (
  arith,
  ap (λ (t : ℕ). 2 ^ t) (suc-add m n),
  pow-suc 2 (m + n),
  pow-suc 2 m,
  ap (λ (t : ℕ). t * 2 ^ n) (pow-suc 2 m),
  pow-add m n,
)

pub pow_pos : (n : ℕ) → 0 < 2 ^ n
pow_pos zero = omega arith
pow_pos (suc n) = omega (arith, pow-suc 2 n, pow_pos n)

pub div-lt : (x a b : ℕ) → x < a * b → x / a < b
div-lt x a b h = grind arith
