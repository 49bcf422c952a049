-- ===== src/Whitelist/First.antt =====
-- `LoadWhitelist`: what of the file the query loops see.
use flowstatd.Base.{
  ℕ, zero, suc, ◌+◌, ◌≤◌, ◌<◌, ◌≡◌, refl, arith, ltb, ◌==◌, ◌&&◌, ◌||◌, if◌then◌else◌, bit_and,
  true, List, [], ◌∷◌, length, get_elem?, set, replicate, Option, none, some, Returns,
  Returns-weaken, >>=-Returns, done, Bool-cases, inl, inr, get_elem?-some, get_elem?-set_ne,
  length-set,
}
use flowstatd.Subnet.{Subnet}
use flowstatd.Report.Whitelist.{HasEnd, listed}
use flowstatd.Whitelist.{
  max_whitelist, inaddr_none, store_address, store_matches, load_host, load_hosts, load_whitelist,
  entries, Loaded, exits, returns,
}

-- How many of the subnets hold the address.
abbrev pub matches : List Subnet → ℕ → ℕ
matches [] addr = 0
matches (s ∷ nets) addr =
    if bit_and addr s.mask == s.net then suc (matches nets addr) else matches nets addr

-- Cells below `i` are kept, and none is added.
abbrev Keeps : ℕ → List ℕ → List ℕ → Type 0
Keeps i old new = (length new ≡ length old) × ((k : ℕ) → k < i → get_elem? new k ≡ get_elem? old k)

Keeps-trans : (i j : ℕ) (a b c : List ℕ) → i ≤ j → Keeps i a b → Keeps j b c → Keeps i a c
Keeps-trans i j a b c h ab bc = (cc, λ k below. rw (bc.1 k (omega arith)) (ab.1 k below))

-- An address that no subnet holds is not stored.
store_matches_none :
    (nets : List Subnet) (addr i : ℕ) (ws : List ℕ)
    → matches nets addr ≡ 0
    → store_matches nets addr i ws ≡ done (i, ws)
unfolding store_matches
store_matches_none [] addr i ws h = refl
store_matches_none (s ∷ nets) addr i ws h = elim (Bool-cases (bit_and addr s.mask == s.net)) [
  | inl e ↦ let never : suc (matches nets addr) ≡ 0 = rw e at h in absurd (omega arith)
  | inr e ↦ rw (e, store_matches) (store_matches_none nets addr i ws (rw e at h))
]

-- An address that one subnet holds is stored once.
store_matches_one :
    (nets : List Subnet) (addr i : ℕ) (ws : List ℕ)
    → matches nets addr ≡ 1
    → i < length ws
    → store_matches nets addr i ws ≡ done (i + 1, set ws i addr)
unfolding store_matches store_address
store_matches_one [] addr i ws h inside = absurd (omega arith)
store_matches_one (s ∷ nets) addr i ws h inside = elim (Bool-cases (bit_and addr s.mask == s.net)) [
  | inl e ↦
      let (old, eo) = get_elem?-some ws i inside in
      let once : suc (matches nets addr) ≡ 1 = rw e at h in
      rw (e, store_matches, eo)
        (store_matches_none nets addr (i + 1) (set ws i addr) (omega (arith, once)))
  | inr e ↦ rw (e, store_matches) (store_matches_one nets addr i ws (rw e at h) inside)
]

-- A free first cell.
Sees_none : (ws : List ℕ) → get_elem? ws 0 ≡ some 0 → HasEnd ws × (listed ws ≡ [])
Sees_none [] e = cc
Sees_none (w ∷ ws) e = (inl (cc), ground (arith, e))

-- A free second cell.
Sees_one :
    (ws : List ℕ) (addr : ℕ)
    → get_elem? ws 0 ≡ some addr
    → get_elem? ws 1 ≡ some 0
    → HasEnd ws × (listed ws ≡ (if addr == 0 then [] else addr ∷ []))
Sees_one [] addr e f = cc
Sees_one (v ∷ []) addr e f = cc
Sees_one (v ∷ w ∷ ws) addr e f = (inr (inl (cc)), ground (arith, e, f))

module _ {ℓ} {Text : Type ℓ} (inet_addr : Text → ℕ) (nets : List Subnet) where
  -- The address of the first entry, if it is one, is not 0.0.0.0, and a subnet holds it.
  abbrev pub first_address : List (Option Text) → List ℕ
  first_address [] = []
  first_address (none ∷ hosts) = []
  first_address (some text ∷ hosts) =
      if inet_addr text == inaddr_none || matches nets (inet_addr text) == 0 || inet_addr text == 0
      then []
      else inet_addr text ∷ []

-- What the query loops see of the array, and that they end inside it.
abbrev pub Sees : List ℕ → List ℕ → Type 0
Sees addrs ws = HasEnd ws × (listed ws ≡ addrs)

abbrev pub IsLoaded : List ℕ → Loaded → Type 0
IsLoaded addrs exits = ⊥
IsLoaded addrs (returns n ws) = Sees addrs ws

module _ {ℓ} {Text : Type ℓ} (inet_addr : Text → ℕ) (nets : List Subnet)
    (apart : (addr : ℕ) → matches nets addr ≤ 1) where
  load_host-Keeps :
      (host : Option Text) (i : ℕ) (ws : List ℕ)
      → i < length ws
      → Returns (load_host inet_addr nets host i ws) (λ next. (i ≤ next.0) × Keeps i ws next.1)
  unfolding load_host
  load_host-Keeps none i ws h = (omega arith, (refl, λ k below. refl))
  load_host-Keeps (some text) i ws h = elim (Bool-cases (inet_addr text == inaddr_none)) [
    | inl e ↦ rw e (omega arith, (refl, λ k below. refl))
    | inr e ↦ rw e (elim (Bool-cases (matches nets (inet_addr text) == 0)) [
      | inl none_match ↦
          rw (store_matches_none nets (inet_addr text) i ws (ground arith))
            (omega arith, (refl, λ k below. refl))
      | inr one_match ↦
          let small = apart (inet_addr text) in
          rw (store_matches_one nets (inet_addr text) i ws (ground arith) h) (
            omega arith,
            (length-set ws i _, λ k below. get_elem?-set_ne ws i k _ (λ e. omega arith)),
          )
    ])
  ]

  -- Loading keeps the cells before `i`.
  load_hosts-Keeps :
      (fuel : ℕ) (hosts : List (Option Text)) (i : ℕ) (ws : List ℕ)
      → 0 < fuel
      → max_whitelist < fuel + i
      → length ws ≡ max_whitelist
      → Returns (load_hosts inet_addr nets fuel hosts i ws) (λ end. Keeps i ws end.1)
  unfolding load_hosts
  load_hosts-Keeps zero hosts i ws some_fuel enough size = absurd (omega arith)
  load_hosts-Keeps (suc fuel) hosts i ws some_fuel enough size =
      elim (Bool-cases (ltb i max_whitelist && ltb i (length hosts))) [
        | inr stop ↦ rw (stop, load_hosts) (refl, λ k below. refl)
        | inl go ↦
            let (host, eh) = get_elem?-some hosts i (ground arith) in
            rw (go, load_hosts, eh)
              (>>=-Returns (load_host inet_addr nets host i ws) _ _ _
                (load_host-Keeps host i ws (ground arith))
                (λ next k.
                  Returns-weaken (load_hosts inet_addr nets fuel hosts (next.0 + 1) next.1) _ _
                    (load_hosts-Keeps fuel hosts (next.0 + 1) next.1 (ground arith)
                      (ground (arith, k.0)) (cc))
                    (λ end later.
                      Keeps-trans i (next.0 + 1) ws next.1 end.1 (ground (arith, k.0)) k.1 later)))
      ]

  -- After a first round that leaves the first cell free.
  load_hosts-skipped :
      (hosts : List (Option Text))
      → Returns
          (load_hosts inet_addr nets max_whitelist hosts 1 (replicate max_whitelist 0))
          (λ end. Sees [] end.1)
  load_hosts-skipped hosts =
      Returns-weaken (load_hosts inet_addr nets max_whitelist hosts 1 (replicate max_whitelist 0)) _
        _ (load_hosts-Keeps max_whitelist hosts 1 _ (omega arith) (omega arith) refl)
        (λ end k. Sees_none end.1 (k.1 0 (omega arith)))

  -- After a first round that takes the first cell.
  load_hosts-taken :
      (hosts : List (Option Text)) (addr : ℕ)
      → Returns
          (load_hosts inet_addr nets max_whitelist hosts 2 (set (replicate max_whitelist 0) 0 addr))
          (λ end. Sees (if addr == 0 then [] else addr ∷ []) end.1)
  load_hosts-taken hosts addr =
      Returns-weaken
        (load_hosts inet_addr nets max_whitelist hosts 2 (set (replicate max_whitelist 0) 0 addr)) _
        _ (load_hosts-Keeps max_whitelist hosts 2 _ (omega arith) (omega arith) refl)
        (λ end k. Sees_one end.1 addr (k.1 0 (omega arith)) (k.1 1 (omega arith)))

  more : (n : ℕ) → (ltb 0 max_whitelist && ltb 0 (suc n)) ≡ true
  more n = ground arith

  load_hosts-first :
      (hosts : List (Option Text))
      → Returns
          (load_hosts inet_addr nets (suc max_whitelist) hosts 0 (replicate max_whitelist 0))
          (λ end. Sees (first_address inet_addr nets hosts) end.1)
  unfolding load_hosts load_host
  load_hosts-first [] = (inl refl, refl)
  load_hosts-first (none ∷ hosts) =
      rw (more (length hosts), load_hosts) (load_hosts-skipped (none ∷ hosts))
  load_hosts-first (some text ∷ hosts) = elim (Bool-cases (inet_addr text == inaddr_none)) [
    | inl bad ↦ rw (more (length hosts), load_hosts, bad) (load_hosts-skipped (some text ∷ hosts))
    | inr good ↦ elim (Bool-cases (matches nets (inet_addr text) == 0)) [
      | inl outside ↦
          rw
            (
              more (length hosts),
              load_hosts,
              good,
              outside,
              store_matches_none nets (inet_addr text) 0 (replicate max_whitelist 0) (ground arith),
            )
            (load_hosts-skipped (some text ∷ hosts))
      | inr inside ↦
          let at_most = apart (inet_addr text) in
          rw
            (
              more (length hosts),
              load_hosts,
              good,
              inside,
              store_matches_one nets (inet_addr text) 0 (replicate max_whitelist 0) (ground arith)
                  (omega arith),
            )
            (load_hosts-taken (some text ∷ hosts) (inet_addr text))
    ]
  ]

  -- If no address lies in two subnets, loading a readable configuration stays inside the array. It
  -- leaves a free cell, and the query loops see at most one address of it: that of the first entry, if
  -- that entry is an address other than 0.0.0.0 in a subnet.
  pub load_whitelist-first :
      (hosts : List (Option Text)) (old : List ℕ)
      → Returns
          (load_whitelist inet_addr nets (entries hosts) old)
          (IsLoaded (first_address inet_addr nets hosts))
  unfolding load_whitelist
  load_whitelist-first hosts old =
      >>=-Returns
        (load_hosts inet_addr nets (suc max_whitelist) hosts 0 (replicate max_whitelist 0)) _ _ _
        (load_hosts-first hosts) (λ end sees. sees)
