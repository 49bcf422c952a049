-- ===== src/Command/Receive/Filled.antt =====
-- What the array holds when the command has been received.
use mathlib.Core.List.{append_assoc}
use flowstatd.Base.{
  take-append, take-nil, length-take, take-within, ℕ, suc, ◌+◌, ◌-◌, ◌<◌, ◌≡◌, refl, sym, ap, ◌∙◌,
  arith, ltb, ltb→lt, ltb→le, List, [], ◌∷◌, ◌++◌, length, take, get_elem?, Returns-weaken,
  replicate, length-append, length-replicate, some, Bool-cases, inl, inr, Returns, ◌>>=◌,
}
use flowstatd.Command.Receive.{until_nul, strncat, receive_command}
use flowstatd.Command.Receive.Written.{get_elem?-zeros, replicate-add, strncat-append}
use flowstatd.Command.Receive.Texts.{
  Padding, until_nul-Padding, until_nul-append, until_nul-stored, until_nul-zeros,
}

-- The bytes of all pieces, in the order in which they arrive.
unfoldable pub concat : List (List ℕ) → List ℕ
concat [] = []
concat (buf ∷ bufs) = buf ++ concat bufs

-- The array that ends with a NUL and reads as the text.
abbrev pub IsFilled : List ℕ → List ℕ → Type 0
IsFilled text command =
    (length command ≡ 8192)
    × (get_elem? command 8191 ≡ some 0)
    × (until_nul command ≡ until_nul (take 8191 text))

-- An array of a text, its padding and the zeros that are left.
padded-IsFilled :
    (pre bytes text : List ℕ) (z k j : ℕ)
    → Padding bytes z
    → j ≡ z + k
    → 8191 ≡ (length pre + length bytes) + k
    → take 8191 text ≡ pre ++ bytes
    → IsFilled text (pre ++ (until_nul bytes ++ replicate (suc j) 0))
padded-IsFilled pre bytes text z k j padding same h e =
    let zeros : List ℕ = replicate (suc j) 0 in
    let begun : List ℕ = pre ++ until_nul bytes in
    let sizes = length-append {A = ℕ} pre (until_nul bytes ++ zeros) in
    let more = length-append {A = ℕ} (until_nul bytes) zeros in
    let long = length-append {A = ℕ} pre (until_nul bytes) in
    let ends : until_nul (until_nul bytes ++ zeros) ≡ until_nul bytes =
      rw (replicate-add z (suc k) (suc j) (omega (arith, same)), padding.1 (replicate (suc k) 0))
        (until_nul-zeros bytes k) in
    let last : get_elem? (begun ++ zeros) 8191 ≡ some 0 =
      get_elem?-zeros begun j 8191 (omega (arith, h, same, long, padding.0)) in
    (
      omega (arith, h, same, sizes, more, length-replicate {A = ℕ} (suc j) 0, padding.0),
      rw (sym (append_assoc pre (until_nul bytes) zeros)) last,
      rw e (until_nul-append pre (until_nul bytes ++ zeros) bytes ends),
    )

-- The array before a piece arrives, filled with zeros behind `pre`.
begun-IsFilled :
    (pre : List ℕ) (k : ℕ)
    → 8191 ≡ length pre + k
    → IsFilled (pre ++ []) (pre ++ replicate (suc k) 0)
unfolding until_nul
begun-IsFilled pre k h =
    let whole : take 8191 (pre ++ []) ≡ pre ++ [] =
      take-append pre [] k 8191 h ∙ ap (λ (zs : List ℕ). pre ++ zs) (take-nil k) in
    padded-IsFilled pre [] (pre ++ []) 0 k k (omega arith, λ ys. refl) (omega arith)
      (omega (arith, h)) whole

-- The last piece, which is cut to what the array has room for.
cut-IsFilled :
    (pre buf rest : List ℕ) (k : ℕ)
    → 8191 ≡ length pre + k
    → k < length buf
    → Returns
        (strncat (pre ++ replicate (suc k) 0) (length pre) (take k buf))
        (IsFilled (pre ++ (buf ++ rest)))
cut-IsFilled pre buf rest k h more =
    let piece = take k buf in
    let split = until_nul-Padding piece in
    let long : length piece ≡ k = length-take k buf (omega (arith, more)) in
    let whole : take 8191 (pre ++ (buf ++ rest)) ≡ pre ++ piece =
      take-append pre (buf ++ rest) k 8191 h
      ∙ ap (λ (zs : List ℕ). pre ++ zs) (take-within k buf rest (omega (arith, more))) in
    rw (strncat-append pre piece (suc k) split.0 (omega (arith, split.1.0, long))) (
      padded-IsFilled pre piece (pre ++ (buf ++ rest)) split.0 0 split.0 split.1 (omega arith)
        (omega (arith, h, long)) whole)

-- A piece that the array has room for, and what arrives behind it.
stored-IsFilled :
    (pre buf : List ℕ) (bufs : List (List ℕ)) (k left : ℕ)
    → 8191 ≡ length pre + k
    → 8191 ≡ (length pre + length buf) + left
    → ((next : List ℕ)
        → 8191 ≡ length next + left
        → Returns
            (receive_command bufs (length next) (next ++ replicate (suc left) 0))
            (IsFilled (next ++ concat bufs)))
    → Returns
        (strncat (pre ++ replicate (suc k) 0) (length pre) buf
          >>= receive_command bufs (length pre + length buf))
        (IsFilled (pre ++ (buf ++ concat bufs)))
stored-IsFilled pre buf bufs k left h fits go =
    let split = until_nul-Padding buf in
    let z = split.0 in
    let next = pre ++ (until_nul buf ++ replicate z 0) in
    let long : length pre + length buf ≡ length next = omega (
      arith,
      split.1.0,
      length-append {A = ℕ} pre (until_nul buf ++ replicate z 0),
      length-append {A = ℕ} (until_nul buf) (replicate z 0),
      length-replicate {A = ℕ} z 0,
    ) in
    let array : pre ++ (until_nul buf ++ replicate (suc (z + left)) 0)
        ≡ next ++ replicate (suc left) 0 =
      rw
        (
          replicate-add z (suc left) (suc (z + left)) (omega arith),
          append_assoc pre (until_nul buf ++ replicate z 0) (replicate (suc left) 0),
          append_assoc (until_nul buf) (replicate z 0) (replicate (suc left) 0),
        )
        refl in
    rw (strncat-append pre buf (suc k) (z + left) (omega (arith, h, fits, split.1.0)), array, long)
      (Returns-weaken (receive_command bufs (length next) (next ++ replicate (suc left) 0))
        (IsFilled (next ++ concat bufs)) (IsFilled (pre ++ (buf ++ concat bufs)))
        (go next (omega (arith, fits, long)))
        (λ command filled. (
          filled.0,
          filled.1,
          filled.2 ∙ until_nul-stored pre buf (concat bufs) z left split.1 fits,
        )))

-- The array that the loop ends with, for what is still to arrive.
receive_command-IsFilled_from :
    (bufs : List (List ℕ)) (pre : List ℕ) (k : ℕ)
    → 8191 ≡ length pre + k
    → Returns
        (receive_command bufs (length pre) (pre ++ replicate (suc k) 0))
        (IsFilled (pre ++ concat bufs))
unfolding receive_command concat
receive_command-IsFilled_from [] pre k h = begun-IsFilled pre k h
receive_command-IsFilled_from (buf ∷ bufs) pre k h =
    elim (Bool-cases (ltb 8191 (length pre + length buf))) [
      | inl e ↦
          let room : 8191 - length pre ≡ k = omega (arith, h) in
          rw (e, room)
            (cut-IsFilled pre buf (concat bufs) k h
              (omega (arith, h, ltb→lt 8191 (length pre + length buf) e)))
      | inr e ↦
          let k' = k - length buf in
          let fits : 8191 ≡ (length pre + length buf) + k' =
            omega (arith, h, ltb→le 8191 (length pre + length buf) e) in
          rw e (
            stored-IsFilled pre buf bufs k k' h fits
              (λ next g. receive_command-IsFilled_from bufs next k' g))
    ]

-- Of a process of `main` that collects a command, with its array of 8192 zeros: whatever pieces
-- `recv` delivers, of whatever lengths and bytes, no write is outside the array; the array keeps
-- its length and its last byte is a NUL; and what `parseCmd` reads, up to the first NUL, is what
-- stands before the first NUL in the first 8191 bytes of all the pieces.
pub receive_command-IsFilled :
    (bufs : List (List ℕ))
    → Returns (receive_command bufs 0 (replicate 8192 0)) (IsFilled (concat bufs))
receive_command-IsFilled bufs = receive_command-IsFilled_from bufs [] 8191 (omega arith)
