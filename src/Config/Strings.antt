-- ===== src/Config/Strings.antt =====
-- C strings as lists of bytes, and what the program uses of the string functions of C.
use flowstatd.Base.{
  ℕ, ◌+◌, ◌-◌, ◌*◌, ◌%◌, ltb, leb, ◌==◌, ◌&&◌, ◌||◌, if◌then◌else◌, Bool, true, false, List, [],
  ◌∷◌, Option, none, some,
}
use flowstatd.Base.Words.{word64}

abbrev pub Text : Type 0
Text = List ℕ

-- The delimiters `"/\t\n "`.
abbrev pub is_delimiter : ℕ → Bool
is_delimiter c = c == b'/' || c == b'\t' || c == b'\n' || c == b' '

unfoldable pub skip_delimiters : Text → Text
skip_delimiters [] = []
skip_delimiters (c ∷ cs) = elim (is_delimiter c) [ true ↦ skip_delimiters cs | false ↦ c ∷ cs ]

-- The bytes before the next delimiter, and those behind it.
unfoldable pub word : Text → Text
word [] = []
word (c ∷ cs) = elim (is_delimiter c) [ true ↦ [] | false ↦ c ∷ word cs ]

unfoldable pub behind_word : Text → Text
behind_word [] = []
behind_word (c ∷ cs) = elim (is_delimiter c) [ true ↦ cs | false ↦ behind_word cs ]

-- `strtok`, with the text that the next call goes on with.
unfoldable pub strtok : Text → Option (Text × Text)
strtok s = elim (skip_delimiters s) [
  | [] ↦ none
  | c ∷ cs ↦ some (word (c ∷ cs), behind_word (c ∷ cs))
]

abbrev pub is_digit : ℕ → Bool
is_digit c = leb b'0' c && leb c b'9'

-- `isspace`: space, and `\t` to `\r`.
abbrev pub is_space : ℕ → Bool
is_space c = c == b' ' || leb 9 c && leb c 13

unfoldable pub skip_spaces : Text → Text
skip_spaces [] = []
skip_spaces (c ∷ cs) = elim (is_space c) [ true ↦ skip_spaces cs | false ↦ c ∷ cs ]

-- The value of the digits that a text begins with, after `n`.
unfoldable pub digits_value : ℕ → Text → ℕ
digits_value n [] = n
digits_value n (c ∷ cs) = elim (is_digit c) [
  | true ↦ digits_value (n * 10 + (c - b'0')) cs
  | false ↦ n
]

abbrev pub saturate : ℕ → ℕ
saturate n = if ltb n word64 then n else word64 - 1

-- Behind the spaces. A number out of range is `ULONG_MAX`; a sign in front negates in 64 bits.
unfoldable pub signed_value : Text → ℕ
unfolding digits_value
signed_value [] = 0
signed_value (c ∷ cs) =
    if c == b'-'
    then (if ltb (digits_value 0 cs) word64
        then (word64 - digits_value 0 cs) % word64
        else word64 - 1)
    else if c == b'+'
    then saturate (digits_value 0 cs)
    else saturate (digits_value 0 (c ∷ cs))

-- `strtoul(s, NULL, 10)`
unfoldable pub strtoul : Text → ℕ
unfolding signed_value skip_spaces
strtoul s = signed_value (skip_spaces s)
