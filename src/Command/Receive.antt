-- ===== src/Command/Receive.antt =====
-- src/flowstatd.c, `main`: the forked process collects a command in an array of 8192 bytes.
pub mod Written
pub mod Texts
pub mod Filled
use flowstatd.Base.{
  ℕ, zero, suc, ◌+◌, ◌-◌, ◌*◌, ◌≤◌, ◌<◌, ◌≡◌, refl, ◌∙◌, arith, ltb, ◌==◌, if◌then◌else◌, true,
  false, List, [], ◌∷◌, length, take, get_elem?, set, replicate, length-set, length-replicate,
  get_elem?-some, get_elem?-set_self, get_elem?-set_ne, get_elem?-replicate, All, some, Bool-cases,
  inl, inr, Run, done, undefined, Returns, Returns-weaken, >>=-Returns, ◌>>=◌, load,
}

-- The bytes before the first NUL.
unfoldable pub until_nul : List ℕ → List ℕ
until_nul [] = []
until_nul (b ∷ bytes) = let rest = until_nul bytes in if b == 0 then [] else b ∷ rest

-- The index of the first NUL of an array at or behind `i`, for the cells left.
unfoldable pub end_of : ℕ → List ℕ → ℕ → Run ℕ
end_of zero array i = undefined
end_of (suc cells) array i = load (get_elem? array i) >>= λ b. elim (b == 0) [
  | true ↦ done i
  | false ↦ end_of cells array (i + 1)
]

-- The bytes and a NUL behind them, from `i` on.
unfoldable pub write_text : List ℕ → List ℕ → ℕ → Run (List ℕ)
write_text [] array i = load (get_elem? array i) >>= λ old. done (set array i 0)
write_text (b ∷ bytes) array i =
    load (get_elem? array i) >>= λ old. write_text bytes (set array i b) (i + 1)

-- `strncat(array + i, bytes, n)`, for the `n` bytes.
unfoldable pub strncat : List ℕ → ℕ → List ℕ → Run (List ℕ)
strncat array i bytes = end_of (length array - i) array i >>= write_text (until_nul bytes) array

-- The loop over what `recv` delivers, until it delivers nothing more; the last value is `command`.
unfoldable pub receive_command : List (List ℕ) → ℕ → List ℕ → Run (List ℕ)
receive_command [] len command = done command
receive_command (buf ∷ bufs) len command =
    if ltb 8191 (len + length buf)
    then strncat command len (take (8191 - len) buf)
    else strncat command len buf >>= receive_command bufs (len + length buf)
