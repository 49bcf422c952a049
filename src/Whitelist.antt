-- ===== src/Whitelist.antt =====
-- src/flowstatd.c, `LoadWhitelist`: the array `whitelist` from the entries of `whitelistIps`. `jansson`
-- gives the entries and `inet_addr` the address of a text; both are parameters.
pub mod First
use flowstatd.Base.{
  ℕ, zero, suc, ◌+◌, ltb, ◌==◌, ◌&&◌, if◌then◌else◌, bit_and, true, false, List, [], ◌∷◌, length,
  get_elem?, set, replicate, Option, none, some, Run, done, out_of_fuel, ◌>>=◌, load, ℤ, pos,
  negsuc,
}
use flowstatd.Subnet.{Subnet}

abbrev pub max_whitelist : ℕ
max_whitelist = 50

-- What `inet_addr` returns for a text that is no address.
abbrev pub inaddr_none : ℕ
inaddr_none = 0xffff_ffff

-- What `json_load_file` and `json_object_get` find: no JSON, no array under the key, or the entries, in
-- which `none` stands for an entry that is not a string.
pub data Config {ℓ} (Text : Type ℓ) : Type ℓ where
  unreadable : Config Text
  invalid : Config Text
  entries : List (Option Text) → Config Text

-- `exit(EXIT_FAILURE)`, or the returned number and the array.
pub data Loaded : Type 0 where
  exits : Loaded
  returns : ℤ → List ℕ → Loaded

-- `whitelist[i++] = addr`, without the step of `i`.
unfoldable pub store_address : List ℕ → ℕ → ℕ → Run (List ℕ)
store_address whitelist i addr = load (get_elem? whitelist i) >>= λ old. done (set whitelist i addr)

-- The loop over the subnets.
unfoldable pub store_matches : List Subnet → ℕ → ℕ → List ℕ → Run (ℕ × List ℕ)
store_matches [] addr i whitelist = done (i, whitelist)
store_matches (s ∷ nets) addr i whitelist = elim (bit_and addr s.mask == s.net) [
  | true ↦ store_address whitelist i addr >>= store_matches nets addr (i + 1)
  | false ↦ store_matches nets addr i whitelist
]

module _ {ℓ} {Text : Type ℓ} (inet_addr : Text → ℕ) (nets : List Subnet) where
  -- The body of the loop over the entries.
  unfoldable pub load_host : Option Text → ℕ → List ℕ → Run (ℕ × List ℕ)
  load_host none i whitelist = done (i, whitelist)
  load_host (some text) i whitelist =
      if inet_addr text == inaddr_none
      then done (i, whitelist)
      else store_matches nets (inet_addr text) i whitelist

  -- The loop over the entries, which shares `i` with the cells. Every round raises it.
  unfoldable pub load_hosts : ℕ → List (Option Text) → ℕ → List ℕ → Run (ℕ × List ℕ)
  load_hosts zero hosts i whitelist = out_of_fuel
  load_hosts (suc fuel) hosts i whitelist = elim (ltb i max_whitelist && ltb i (length hosts)) [
    | false ↦ done (i, whitelist)
    | true ↦ load (get_elem? hosts i) >>= λ host.
        load_host host i whitelist >>= λ next. load_hosts fuel hosts (next.0 + 1) next.1
  ]

  -- `LoadWhitelist`
  unfoldable pub load_whitelist : Config Text → List ℕ → Run Loaded
  load_whitelist unreadable whitelist = done exits
  load_whitelist invalid whitelist = done (returns (negsuc 0) whitelist)
  load_whitelist (entries hosts) whitelist =
      load_hosts (suc max_whitelist) hosts 0 (replicate max_whitelist 0) >>= λ end.
      done (returns (pos end.0) end.1)
