-- ===== src/FileName/Digits.antt =====
-- Numbers in decimal digits.
use flowstatd.Base.{
  ℕ, zero, suc, ◌+◌, ◌-◌, ◌*◌, ◌^◌, ◌/◌, ◌%◌, ◌<◌, ◌≡◌, refl, ap, sym, ◌∙◌, arith, ltb, leb, ◌&&◌,
  true, false, [], ◌∷◌, ◌++◌, length, length-append,
}
use flowstatd.Config.Strings.{Text}
use flowstatd.FileName.{print_number}

-- The last `w` digits.
unfoldable pub print_digits : ℕ → ℕ → Text
print_digits zero n = []
print_digits (suc w) n = print_digits w (n / 10) ++ (b'0' + n % 10) ∷ []

-- The value of digits behind those of `n`.
unfoldable value : ℕ → Text → ℕ
value n [] = n
value n (c ∷ cs) = value (n * 10 + (c - b'0')) cs

value-append : (n c : ℕ) (s : Text) → value n (s ++ c ∷ []) ≡ value n s * 10 + (c - b'0')
unfolding value
value-append n c [] = refl
value-append n c (d ∷ s) = value-append (n * 10 + (d - b'0')) c s

pub length-print_digits : (w n : ℕ) → length (print_digits w n) ≡ w
unfolding print_digits
length-print_digits zero n = refl
length-print_digits (suc w) n = omega (
  arith,
  length-append {A = ℕ} (print_digits w (n / 10)) ((b'0' + n % 10) ∷ []),
  length-print_digits w (n / 10),
)

pow-tenth : (w n : ℕ) → n < 10 ^ suc w → n / 10 < 10 ^ w
pow-tenth w n h = omega (arith, h)

value-print_digits : (w n : ℕ) → n < 10 ^ w → value 0 (print_digits w n) ≡ n
unfolding print_digits value
value-print_digits zero n h = omega arith
value-print_digits (suc w) n h =
    let rest = value-print_digits w (n / 10) (pow-tenth w n h) in
    omega (arith, value-append 0 (b'0' + n % 10) (print_digits w (n / 10)), rest)

-- Numbers of as many digits are told apart.
pub print_digits_injective :
    (w m n : ℕ) → m < 10 ^ w → n < 10 ^ w → print_digits w m ≡ print_digits w n → m ≡ n
print_digits_injective w m n h k e =
    sym (value-print_digits w m h) ∙ ap (value 0) e ∙ value-print_digits w n k

-- A number that has no more digits than are asked for.
pub print_number-print_digits :
    (fuel w n : ℕ)
    → w < fuel
    → n < 10 ^ suc w
    → print_number fuel (suc w) n ≡ print_digits (suc w) n
unfolding print_number print_digits
print_number-print_digits zero w n h k = absurd (omega arith)
print_number-print_digits (suc fuel) zero n h k =
    let one : (leb 1 1 && ltb n 10) ≡ true = (ground (arith, k)) in
    let same : n % 10 ≡ n = omega (arith, k) in rw (one, same) refl
print_number-print_digits (suc fuel) (suc w) n h k =
    let more : (leb (suc (suc w)) 1 && ltb n 10) ≡ false = (ground arith) in
    let fewer : suc (suc w) - 1 ≡ suc w = omega arith in
    rw
      (
        more,
        print_number,
        fewer,
        print_number-print_digits fuel w (n / 10) (omega arith) (pow-tenth (suc w) n k),
      )
      refl
