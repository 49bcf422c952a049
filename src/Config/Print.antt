-- ===== src/Config/Print.antt =====
-- A network that was written as text is read back.
use flowstatd.Base.{
  take-all, ℕ, ◌+◌, ◌*◌, ◌/◌, ◌%◌, ◌≤◌, ◌<◌, ◌≡◌, refl, arith, ltb, ◌==◌, if◌then◌else◌, false,
  Bool-cases, inl, inr, [], ◌∷◌, ◌++◌, length, length-append, All, take, some, ◌≢◌,
}
use flowstatd.Base.Words.{word32}
use flowstatd.Whitelist.{inaddr_none}
use flowstatd.Config.Strings.{
  Text, is_delimiter, skip_delimiters, word, behind_word, strtok, skip_spaces, digits_value,
  signed_value, strtoul,
}
use flowstatd.Config.{System, words}

-- A prefix length below 100 in decimal digits.
abbrev pub print_bits : ℕ → Text
print_bits n = if ltb n 10 then (b'0' + n) ∷ [] else (b'0' + n / 10) ∷ (b'0' + n % 10) ∷ []

abbrev pub print_network : Text → ℕ → Text
print_network ip bits = ip ++ b'/' ∷ print_bits bits

-- No delimiter stands in the text.
abbrev pub IsWord : Text → Type 0
IsWord = All (λ c. is_delimiter c ≡ false)

word-append : (s rest : Text) → IsWord s → word (s ++ b'/' ∷ rest) ≡ s
unfolding word
word-append [] rest h = refl
word-append (c ∷ s) rest (e, h) = rw (e, word) (rw (word-append s rest h) refl)

behind_word-append : (s rest : Text) → IsWord s → behind_word (s ++ b'/' ∷ rest) ≡ rest
unfolding behind_word
behind_word-append [] rest h = refl
behind_word-append (c ∷ s) rest (e, h) = rw (e, behind_word) (behind_word-append s rest h)

strtok-append :
    (c : ℕ) (s rest : Text) → IsWord (c ∷ s) → strtok (c ∷ s ++ b'/' ∷ rest) ≡ some (c ∷ s, rest)
unfolding strtok skip_delimiters
strtok-append c s rest (e, h) =
    rw (e, strtok, word-append (c ∷ s) rest (e, h), behind_word-append (c ∷ s) rest (e, h))

word_self : (s : Text) → IsWord s → word s ≡ s
unfolding word
word_self [] h = refl
word_self (c ∷ s) (e, h) = rw (e, word) (rw (word_self s h) refl)

behind_word_self : (s : Text) → IsWord s → behind_word s ≡ []
unfolding behind_word
behind_word_self [] h = refl
behind_word_self (c ∷ s) (e, h) = rw (e, behind_word) (behind_word_self s h)

strtok_self : (c : ℕ) (s : Text) → IsWord (c ∷ s) → strtok (c ∷ s) ≡ some (c ∷ s, [])
unfolding strtok skip_delimiters
strtok_self c s (e, h) = rw (e, strtok, word_self (c ∷ s) (e, h), behind_word_self (c ∷ s) (e, h))

digit-IsWord : (d : ℕ) → d < 10 → is_delimiter (b'0' + d) ≡ false
digit-IsWord d h = ground arith

strtoul-digit : (d : ℕ) → d < 10 → strtoul ((b'0' + d) ∷ []) ≡ d
unfolding strtoul signed_value skip_spaces digits_value
strtoul-digit d h = ground arith

strtoul-digits : (d e : ℕ) → d < 10 → e < 10 → strtoul ((b'0' + d) ∷ (b'0' + e) ∷ []) ≡ d * 10 + e
unfolding strtoul signed_value skip_spaces digits_value
strtoul-digits d e h k = ground arith

strtok-print_bits :
    (n : ℕ) → n < 100 → (rest : Text) × (strtok (print_bits n) ≡ some (print_bits n, rest))
strtok-print_bits n h = elim (Bool-cases (ltb n 10)) [
  | inl small ↦ ([], rw small (strtok_self (b'0' + n) [] (digit-IsWord n (ground arith), tt)))
  | inr large ↦ (
    [],
    rw large (
        strtok_self (b'0' + n / 10) ((b'0' + n % 10) ∷ [])
          (digit-IsWord (n / 10) (omega arith), (digit-IsWord (n % 10) (omega arith), tt))),
  )
]

strtoul-print_bits : (n : ℕ) → n < 100 → strtoul (print_bits n) ≡ n
strtoul-print_bits n h = elim (Bool-cases (ltb n 10)) [
  | inl small ↦ rw small (strtoul-digit n (ground arith))
  | inr large ↦
      rw large (omega (arith, strtoul-digits (n / 10) (n % 10) (omega arith) (omega arith)))
]

length-print_bits : (n : ℕ) → length (print_bits n) ≤ 2
length-print_bits n = ground arith

-- An address text with no delimiter in it, of at most 8188 bytes, that `inet_addr` accepts, followed by
-- `/` and a prefix length below 100 in decimal digits, is read as that address and that prefix length.
pub words-print_network :
    (system : System) (c : ℕ) (s : Text) (n : ℕ)
    → IsWord (c ∷ s)
    → length (c ∷ s) ≤ 8188
    → system.inet_addr (c ∷ s) ≢ inaddr_none
    → n < 100
    → words system (print_network (c ∷ s) n) ≡ some (system.inet_addr (c ∷ s), n)
unfolding words
words-print_network system c s n is_word short known small =
    let whole : take 8191 (print_network (c ∷ s) n) ≡ print_network (c ∷ s) n =
      take-all 8191 (print_network (c ∷ s) n)
        (omega (arith, length-append {A = ℕ} (c ∷ s) (b'/' ∷ print_bits n), length-print_bits n)) in
    let (rest, bits) = strtok-print_bits n small in
    let ok : (system.inet_addr (c ∷ s) == inaddr_none) ≡ false = (ground (arith, known)) in
    let narrow : n % word32 ≡ n = omega arith in
    rw (
      whole,
      words,
      strtok-append c s (print_bits n) is_word,
      bits,
      ok,
      strtoul-print_bits n small,
      narrow,
    )
