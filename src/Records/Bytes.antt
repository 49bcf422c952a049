-- ===== src/Records/Bytes.antt =====
-- Numbers as bytes, least significant first, and what `gzread` does to the bytes of an object.
use native.Mathlib.Nat.{pow-suc}
use flowstatd.Base.{
  ℕ, zero, suc, ◌+◌, ◌*◌, ◌/◌, ◌%◌, ◌^◌, ◌<◌, ◌≡◌, refl, ap, arith, List, [], ◌∷◌, drop,
}

-- The `n` bytes of a number, before `rest`.
unfoldable pub put_le : ℕ → ℕ → List ℕ → List ℕ
put_le zero x rest = rest
put_le (suc n) x rest = x % 256 ∷ put_le n (x / 256) rest

-- The number in the first `n` bytes.
unfoldable pub get_le : ℕ → List ℕ → ℕ
get_le zero bytes = 0
get_le (suc n) [] = 0
get_le (suc n) (b ∷ bytes) = b + 256 * get_le n bytes

-- `gzread` into an object: the stream's bytes in the place of the object's first ones; those that the
-- stream has no byte for stay.
unfoldable pub overlay : List ℕ → List ℕ → List ℕ
overlay [] stream = []
overlay (m ∷ object) [] = m ∷ object
overlay (m ∷ object) (b ∷ stream) = b ∷ overlay object stream

-- The stream after a `gzread` into an object.
unfoldable pub after : List ℕ → List ℕ → List ℕ
after [] stream = stream
after (m ∷ object) [] = []
after (m ∷ object) (b ∷ stream) = after object stream

pub get_le-put_le : (n x : ℕ) (rest : List ℕ) → x < 256 ^ n → get_le n (put_le n x rest) ≡ x
unfolding get_le put_le
get_le-put_le zero x rest h = omega arith
get_le-put_le (suc n) x rest h =
    let small : x / 256 < 256 ^ n = omega (arith, pow-suc 256 n) in
    omega (arith, get_le-put_le n (x / 256) rest small)

pub drop-put_le : (n x : ℕ) (rest : List ℕ) → drop n (put_le n x rest) ≡ rest
unfolding put_le
drop-put_le zero x rest = refl
drop-put_le (suc n) x rest = drop-put_le n (x / 256) rest

pub overlay-put_le :
    (n x y : ℕ) (object stream : List ℕ)
    → overlay (put_le n x object) (put_le n y stream) ≡ put_le n y (overlay object stream)
unfolding overlay put_le
overlay-put_le zero x y object stream = refl
overlay-put_le (suc n) x y object stream =
    ap (λ (bytes : List ℕ). y % 256 ∷ bytes) (overlay-put_le n (x / 256) (y / 256) object stream)

pub after-put_le :
    (n x y : ℕ) (object stream : List ℕ)
    → after (put_le n x object) (put_le n y stream) ≡ after object stream
unfolding after put_le
after-put_le zero x y object stream = refl
after-put_le (suc n) x y object stream = after-put_le n (x / 256) (y / 256) object stream
