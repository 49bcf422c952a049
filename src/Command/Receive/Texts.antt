-- ===== src/Command/Receive/Texts.antt =====
-- What is read of an array up to its first NUL.
use mathlib.Core.List.{append_assoc}
use flowstatd.Base.{
  take-append, ℕ, suc, ◌+◌, ◌≡◌, refl, sym, ap, arith, ◌==◌, if◌then◌else◌, List, [], ◌∷◌, ◌++◌,
  length, take, replicate, length-append, length-replicate, Bool-cases, inl, inr,
}
use flowstatd.Command.Receive.{until_nul}

-- What is read of a text depends only on what is read behind a common beginning.
pub until_nul-append :
    (pre xs ys : List ℕ)
    → until_nul xs ≡ until_nul ys
    → until_nul (pre ++ xs) ≡ until_nul (pre ++ ys)
unfolding until_nul
until_nul-append [] xs ys h = h
until_nul-append (p ∷ pre) xs ys h =
    ap (λ (zs : List ℕ). if p == 0 then [] else p ∷ zs) (until_nul-append pre xs ys h)

-- A piece as it stands in the array: its text, then a zero for each byte that is not of the text.
abbrev pub Padding : List ℕ → ℕ → Type 0
Padding bytes z =
    (length bytes ≡ length (until_nul bytes) + z)
    × ((ys : List ℕ)
        → until_nul (until_nul bytes ++ (replicate z 0 ++ ys)) ≡ until_nul (bytes ++ ys))

pub until_nul-Padding : (bytes : List ℕ) → (z : ℕ) × Padding bytes z
unfolding until_nul
until_nul-Padding [] = (0, (omega arith, λ ys. refl))
until_nul-Padding (b ∷ bytes) = elim (Bool-cases (b == 0)) [
  | inl e ↦ (suc (length bytes), (rw e (omega arith), λ ys. rw e refl))
  | inr e ↦
      let rest = until_nul-Padding bytes in
      (
        rest.0,
        (
          rw e (omega (arith, rest.1.0)),
          λ ys. rw (e, until_nul, e) (ap (λ (zs : List ℕ). b ∷ zs) (rest.1.1 ys)),
        ),
      )
]

pub until_nul-zeros : (xs : List ℕ) (k : ℕ) → until_nul (xs ++ replicate (suc k) 0) ≡ until_nul xs
unfolding until_nul
until_nul-zeros [] k = refl
until_nul-zeros (x ∷ xs) k =
    ap (λ (zs : List ℕ). if x == 0 then [] else x ∷ zs) (until_nul-zeros xs k)

-- What is read behind a piece with its padding is what is read behind the piece.
pub until_nul-stored :
    (pre buf rest : List ℕ) (z k : ℕ)
    → Padding buf z
    → 8191 ≡ (length pre + length buf) + k
    → until_nul (take 8191 ((pre ++ (until_nul buf ++ replicate z 0)) ++ rest))
      ≡ until_nul (take 8191 (pre ++ (buf ++ rest)))
until_nul-stored pre buf rest z k padding fits =
    let piece = until_nul buf ++ replicate z 0 in
    let long : 8191 ≡ length (pre ++ piece) + k = omega (
      arith,
      fits,
      padding.0,
      length-append {A = ℕ} pre piece,
      length-append {A = ℕ} (until_nul buf) (replicate z 0),
      length-replicate {A = ℕ} z 0,
    ) in
    let plain : 8191 ≡ length (pre ++ buf) + k =
      omega (arith, fits, length-append {A = ℕ} pre buf) in
    let same : until_nul (piece ++ take k rest) ≡ until_nul (buf ++ take k rest) =
      rw (append_assoc (until_nul buf) (replicate z 0) (take k rest)) (padding.1 (take k rest)) in
    rw
      (
        take-append (pre ++ piece) rest k 8191 long,
        sym (append_assoc pre buf rest),
        take-append (pre ++ buf) rest k 8191 plain,
        append_assoc pre piece (take k rest),
        append_assoc pre buf (take k rest),
      )
      (until_nul-append pre (piece ++ take k rest) (buf ++ take k rest) same)
