-- ===== src/Report/Whitelist.antt =====
-- The loop over the whitelist, against membership in its entries before the first 0.
use flowstatd.Base.{
  ℕ, ◌<◌, All, ◌≡◌, ◌⊎◌, refl, inl, inr, arith, ◌==◌, ◌||◌, not, Bool, true, false, List, [], ◌∷◌,
  done, undefined, if◌then◌else◌,
}
use flowstatd.Flow.{HostFlow}
use flowstatd.Report.{in_whitelist, is_shown, is_hidden}

-- The entries that the loops look at.
abbrev pub listed : List ℕ → List ℕ
listed [] = []
listed (w ∷ ws) = if w == 0 then [] else w ∷ listed ws

abbrev pub member : ℕ → List ℕ → Bool
member a [] = false
member a (w ∷ ws) = a == w || member a ws

-- Some cell is 0, as it is after `memset` when fewer than 50 addresses have been loaded.
abbrev pub HasEnd : List ℕ → Type 0
HasEnd [] = ⊥
HasEnd (w ∷ ws) = (w ≡ 0) ⊎ HasEnd ws

-- On a whitelist with a cell that is 0, the loop returns whether the address stands before the first.
pub in_whitelist_lem :
    (ws : List ℕ) (addr : ℕ) → HasEnd ws → in_whitelist ws addr ≡ done (member addr (listed ws))
unfolding in_whitelist
in_whitelist_lem [] addr h = absurd h
in_whitelist_lem (w ∷ ws) addr (inl e) = ground arith
in_whitelist_lem (w ∷ ws) addr (inr h) = ground (arith, in_whitelist_lem ws addr h)

-- A whitelist of 50 addresses, none of them 0, is read past its end for every address that is not in it.
pub in_whitelist_full :
    (ws : List ℕ) (addr : ℕ)
    → All (λ w. 0 < w) ws
    → member addr ws ≡ false
    → in_whitelist ws addr ≡ undefined
unfolding in_whitelist
in_whitelist_full [] addr h k = refl
in_whitelist_full (w ∷ ws) addr h k = ground (arith, in_whitelist_full ws addr h.1)

-- Whether an entry is shown.
abbrev pub shown : Bool → List ℕ → HostFlow → Bool
shown show_all ws host = show_all || not (member host.sin_addr (listed ws))

pub is_shown_lem :
    (show_all : Bool) (ws : List ℕ) (host : HostFlow)
    → HasEnd ws
    → is_shown show_all ws host ≡ done (shown show_all ws host)
unfolding is_shown
is_shown_lem true ws host h = refl
is_shown_lem false ws host h = rw (in_whitelist_lem ws host.sin_addr h)

-- Whether the flows of an address are hidden.
abbrev pub hides : Bool → List ℕ → ℕ → Bool
hides true ws addr = false
hides false ws addr = member addr (listed ws)

pub is_hidden_lem :
    (show_all : Bool) (ws : List ℕ) (addr : ℕ)
    → HasEnd ws
    → is_hidden show_all ws addr ≡ done (hides show_all ws addr)
unfolding is_hidden
is_hidden_lem true ws addr h = refl
is_hidden_lem false ws addr h = in_whitelist_lem ws addr h
