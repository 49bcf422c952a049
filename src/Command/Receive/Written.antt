-- ===== src/Command/Receive/Written.antt =====
-- A text that is written over the zeros of an array.
use mathlib.Core.List.{append_assoc}
use flowstatd.Base.{
  ℕ, zero, suc, ◌+◌, ◌-◌, ◌<◌, ◌≡◌, refl, sym, ap, arith, List, [], ◌∷◌, ◌++◌, length, get_elem?,
  set, get_elem?-replicate, replicate, length-append, length-replicate, some, done,
}
use flowstatd.Command.Receive.{until_nul, end_of, write_text, strncat}

get_elem?-append :
    (pre : List ℕ) (x : ℕ) (xs : List ℕ) → get_elem? (pre ++ x ∷ xs) (length pre) ≡ some x
get_elem?-append [] x xs = refl
get_elem?-append (p ∷ pre) x xs = get_elem?-append pre x xs

set-append :
    (pre : List ℕ) (x y : ℕ) (xs : List ℕ) → set (pre ++ x ∷ xs) (length pre) y ≡ pre ++ y ∷ xs
set-append [] x y xs = refl
set-append (p ∷ pre) x y xs = ap (λ zs. p ∷ zs) (set-append pre x y xs)

pub replicate-add : (m n k : ℕ) → k ≡ m + n → replicate {A = ℕ} k 0 ≡ replicate m 0 ++ replicate n 0
replicate-add zero n k h = ap (λ (j : ℕ). replicate {A = ℕ} j 0) (omega (arith, h))
replicate-add (suc m) n zero h = absurd (omega (arith, h))
replicate-add (suc m) n (suc k) h =
    ap (λ (zs : List ℕ). 0 ∷ zs) (replicate-add m n k (omega (arith, h)))

-- A text is written over the zeros behind `pre`.
write_text-append :
    (bytes pre : List ℕ) (n k : ℕ)
    → n ≡ length bytes + suc k
    → write_text bytes (pre ++ replicate n 0) (length pre)
      ≡ done (pre ++ (bytes ++ replicate (suc k) 0))
unfolding write_text
write_text-append bytes pre zero k h = absurd (omega (arith, h))
write_text-append [] pre (suc n) k h =
    let same : n ≡ k = omega (arith, h) in
    rw (same, get_elem?-append pre 0 (replicate k 0), set-append pre 0 0 (replicate k 0)) refl
write_text-append (b ∷ bytes) pre (suc n) k h =
    let next : length pre + 1 ≡ length (pre ++ b ∷ []) =
      omega (arith, length-append {A = ℕ} pre (b ∷ [])) in
    rw
      (
        get_elem?-append pre 0 (replicate n 0),
        set-append pre 0 b (replicate n 0),
        next,
        sym (append_assoc pre (b ∷ []) (replicate n 0)),
        write_text-append bytes (pre ++ b ∷ []) n k (omega (arith, h)),
        append_assoc pre (b ∷ []) (bytes ++ replicate (suc k) 0),
      )
      refl

end_of-here :
    (cells : ℕ) (array : List ℕ) (i : ℕ)
    → 0 < cells
    → get_elem? array i ≡ some 0
    → end_of cells array i ≡ done i
unfolding end_of
end_of-here zero array i h e = absurd (omega arith)
end_of-here (suc cells) array i h e = rw e refl

-- Behind `pre` the array is zeros, and the text fits with its NUL.
pub strncat-append :
    (pre bytes : List ℕ) (n k : ℕ)
    → n ≡ length (until_nul bytes) + suc k
    → strncat (pre ++ replicate n 0) (length pre) bytes
      ≡ done (pre ++ (until_nul bytes ++ replicate (suc k) 0))
unfolding strncat
strncat-append pre bytes zero k h = absurd (omega (arith, h))
strncat-append pre bytes (suc n) k h =
    let zeros : List ℕ = replicate (suc n) 0 in
    let room : 0 < length (pre ++ zeros) - length pre =
      omega (arith, length-append {A = ℕ} pre zeros, length-replicate {A = ℕ} n 0) in
    let here =
      end_of-here (length (pre ++ zeros) - length pre) (pre ++ zeros) (length pre) room
        (get_elem?-append pre 0 (replicate n 0)) in
    rw here (write_text-append (until_nul bytes) pre (suc n) k h)

pub get_elem?-zeros :
    (xs : List ℕ) (j i : ℕ) → i ≡ length xs + j → get_elem? (xs ++ replicate (suc j) 0) i ≡ some 0
get_elem?-zeros [] j i h = get_elem?-replicate (suc j) i 0 (omega (arith, h))
get_elem?-zeros (x ∷ xs) j zero h = absurd (omega (arith, h))
get_elem?-zeros (x ∷ xs) j (suc i) h = get_elem?-zeros xs j i (omega (arith, h))
