-- ===== src/Base/Slices.antt =====
-- The beginning and the rest of a list.
use Prim.Native.Nat.{ℕ, zero, suc, ◌+◌, ◌≤◌}
use mathlib.Core.Path.{◌≡◌, refl, ap, ◌∙◌}
use mathlib.Core.List.{List, [], ◌∷◌, ◌++◌}
use native.Mathlib.Omega.{arith}
use flowstatd.Base.Lists.{length, take, drop, replicate, All}

pub take-all {ℓ} : {A : Type ℓ} (n : ℕ) (xs : List A) → length xs ≤ n → take n xs ≡ xs
take-all zero [] h = refl
take-all zero (x ∷ xs) h = absurd (omega arith)
take-all (suc n) [] h = refl
take-all (suc n) (x ∷ xs) h = ap (λ ys. x ∷ ys) (take-all n xs (omega arith))

pub take-append :
    (xs ys : List ℕ) (n k : ℕ) → k ≡ length xs + n → take k (xs ++ ys) ≡ xs ++ take n ys
take-append [] ys n k h = ap (λ (j : ℕ). take j ys) (omega (arith, h))
take-append (x ∷ xs) ys n zero h = absurd (omega (arith, h))
take-append (x ∷ xs) ys n (suc k) h =
    ap (λ (zs : List ℕ). x ∷ zs) (take-append xs ys n k (omega (arith, h)))

pub take-nil : (k : ℕ) → take {A = ℕ} k [] ≡ []
take-nil zero = refl
take-nil (suc k) = refl

pub length-take : (k : ℕ) (xs : List ℕ) → k ≤ length xs → length (take k xs) ≡ k
length-take zero xs h = refl
length-take (suc k) [] h = absurd (omega (arith, h))
length-take (suc k) (x ∷ xs) h = ap suc (length-take k xs (omega (arith, h)))

pub take-within : (k : ℕ) (xs ys : List ℕ) → k ≤ length xs → take k (xs ++ ys) ≡ take k xs
take-within zero xs ys h = refl
take-within (suc k) [] ys h = absurd (omega (arith, h))
take-within (suc k) (x ∷ xs) ys h =
    ap (λ (zs : List ℕ). x ∷ zs) (take-within k xs ys (omega (arith, h)))

pub drop-all {ℓ} : {A : Type ℓ} (n : ℕ) (xs : List A) → length xs ≤ n → drop n xs ≡ []
drop-all zero [] h = refl
drop-all (suc n) [] h = refl
drop-all zero (x ∷ xs) h = absurd (omega arith)
drop-all (suc n) (x ∷ xs) h = drop-all n xs (omega arith)

pub drop-add {ℓ} : {A : Type ℓ} (m n : ℕ) (xs : List A) → drop (m + n) xs ≡ drop n (drop m xs)
drop-add zero n xs = ap (λ (k : ℕ). drop k xs) (omega arith)
drop-add (suc m) zero [] = ap (λ (k : ℕ). drop k []) {x = suc m + zero} {y = suc m} (omega arith)
drop-add {A} (suc m) (suc n) [] =
    ap (λ (k : ℕ). drop {A = A} k []) {x = suc m + suc n} {y = suc (m + suc n)} (omega arith)
drop-add (suc m) n (x ∷ xs) =
    ap (λ (k : ℕ). drop k (x ∷ xs)) {x = suc m + n} {y = suc (m + n)} (omega arith)
    ∙ drop-add m n xs

pub drop-replicate {ℓ} : {A : Type ℓ} (k n : ℕ) (a : A) → n ≤ k → drop k (replicate n a) ≡ []
drop-replicate zero zero a h = refl
drop-replicate (suc k) zero a h = refl
drop-replicate zero (suc n) a h = absurd (omega arith)
drop-replicate (suc k) (suc n) a h = drop-replicate k n a (omega arith)

pub All-append {ℓ κ} :
    {A : Type ℓ} (P : A → Type κ) (xs ys : List A) → All P xs → All P ys → All P (xs ++ ys)
All-append P [] ys h k = k
All-append P (x ∷ xs) ys (p, h) k = (p, All-append P xs ys h k)

module _ {ℓ} {A : Type ℓ} where
  pub append-eq :
      (xs ys us vs : List A) → length xs ≡ length ys → xs ++ us ≡ ys ++ vs → (xs ≡ ys) × (us ≡ vs)
  append-eq [] [] us vs same e = (refl, e)
  append-eq [] (y ∷ ys) us vs same e = absurd (omega (arith, same))
  append-eq (x ∷ xs) [] us vs same e = absurd (omega (arith, same))
  append-eq (x ∷ xs) (y ∷ ys) us vs same e =
      let first : x ≡ y = cc in
      let rest : xs ++ us ≡ ys ++ vs = cc in
      let (head, tail) = append-eq xs ys us vs (omega (arith, same)) rest in
      (rw (first, head) refl, tail)

  pub take-append_short : (n : ℕ) (xs ys : List A) → n ≤ length xs → take n (xs ++ ys) ≡ take n xs
  take-append_short zero xs ys h = refl
  take-append_short (suc n) [] ys h = absurd (omega (arith, h))
  take-append_short (suc n) (x ∷ xs) ys h =
      ap (λ (t : List A). x ∷ t) (take-append_short n xs ys (omega (arith, h)))

  pub length-take_le : (n : ℕ) (xs : List A) → length (take n xs) ≤ n
  length-take_le zero xs = omega arith
  length-take_le (suc n) [] = omega arith
  length-take_le (suc n) (x ∷ xs) = omega (arith, length-take_le n xs)
