-- ===== src/Start/Sound.antt =====
-- The state that the loop begins with.
use mathlib.Core.List.{append-nil}
use flowstatd.Base.{
  drop-replicate, length-replicate, ℕ, ◌+◌, ◌-◌, ◌*◌, ◌^◌, ◌≤◌, ◌<◌, ◌≡◌, ◌⊎◌, refl, ap, sym, ◌∙◌,
  arith, ◌==◌, List, [], ◌∷◌, length, drop, replicate, All, All-replicate, Option, none, some, true,
  Bool-cases, inl, inr, Run, done, Returns, >>=-Returns, ◌>>=◌,
}
use flowstatd.Base.Bits.{pow-add, pow_pos}
use flowstatd.Subnet.{Subnet}
use flowstatd.Subnet.Shape.{IsValid}
use flowstatd.Lookup.Index.{total}
use flowstatd.Flow.{zero_flow, FlowState}
use flowstatd.Flow.Shape.{IsSound}
use flowstatd.Daemon.Sound.{IsDay, cleared-IsValidTable}
use flowstatd.Records.{export_record, File, content, Imported, import_record}
use flowstatd.Records.Codec.{zero_flow-FitsHost, FitsHost}
use flowstatd.Records.Limit.{max_stored}
use flowstatd.Records.RoundTrip.{IsStorable, import_record-export_record}
use flowstatd.Report.Whitelist.{HasEnd}
use flowstatd.Whitelist
use flowstatd.Whitelist.{load_whitelist, Loaded}
use flowstatd.Whitelist.First.{matches, first_address, IsLoaded, load_whitelist-first}
use flowstatd.Config.Strings.{Text}
use flowstatd.Config.{Json, Key, Document, System, Settings, load_config}
use flowstatd.Config.Loaded.{
  IsSomeWith, IsStated, ProperNetwork, ProperStated, load_config-IsStated,
}
use flowstatd.Start.{
  SubnetSort, Boot, Started, quits, dies, runs, no_settings, open_loop, start_table, start_with,
  start,
}
use flowstatd.Start.Sorted.{All-Permᴰ, total-Permᴰ}

-- A subnet of a prefix length from 8 on has at most 2^24 addresses.
count-le : (s : Subnet) → IsValid s → 8 ≤ s.mask_bits → s.ip_count ≤ 0x100_0000
count-le s valid h =
    let p : ℕ = 2 ^ (32 - s.mask_bits) in
    let q : ℕ = 2 ^ (s.mask_bits - 8) in
    let whole : q * p ≡ 0x100_0000 =
      sym (pow-add (s.mask_bits - 8) (32 - s.mask_bits))
      ∙ ap (λ (t : ℕ). 2 ^ t) (width s.mask_bits h valid.most) in
    let bound : p ≤ 0x100_0000 = factor_le q p 0x100_0000 whole (pow_pos (s.mask_bits - 8)) in
    omega (arith, bound, valid.counted)
  where
    width : (m : ℕ) → 8 ≤ m → m ≤ 31 → m - 8 + (32 - m) ≡ 24
    width m h k = omega arith

    factor_le : (q p w : ℕ) → q * p ≡ w → 0 < q → p ≤ w
    factor_le q p w e h = grind arith

total-le :
    (nets : List Subnet)
    → All IsValid nets
    → All (λ s. 8 ≤ s.mask_bits) nets
    → total nets ≤ length nets * 0x100_0000
total-le [] valid long = omega arith
total-le (s ∷ nets) (v, valid) (l, long) = omega (arith, count-le s v l, total-le nets valid long)

-- The cleared table for the sorted subnets.
abbrev fresh : SubnetSort → Boot → Settings → FlowState
fresh q boot st = record {
  nets = q.qsort st.nets;
  my_net = st.my_net;
  localtm = boot.now;
  ip_table = replicate st.sum_ip_count zero_flow;
}

stated-total :
    (st : Settings)
    → IsStated 8 st
    → (total st.nets < 0x8000_0000) × (st.sum_ip_count ≡ total st.nets)
stated-total st (counted, few) =
    let bound = total-le st.nets counted.valid counted.long in
    (omega (arith, bound, few), omega (arith, bound, few, counted.summed))

fresh-IsSound :
    (q : SubnetSort) (boot : Boot) (st : Settings) → IsStated 8 st → IsSound (fresh q boot st)
fresh-IsSound q boot st (counted, few) =
    let (small, summed) = stated-total st (counted, few) in
    let same = total-Permᴰ (q.qsort-perm st.nets) in
    record {
      nets_valid = All-Permᴰ IsValid (q.qsort-perm st.nets) counted.valid;
      small = omega (arith, small, same);
      table = rw (summed, same) (cleared-IsValidTable (total st.nets));
    }

-- The file of the day: there is none, or it is one that `ExportRecord` wrote from sound counters with at
-- least as many entries as the subnets have addresses and at most 5,162,220.
abbrev pub IsToday : System → Boot → Type 0
IsToday system boot =
    (boot.file ≡ File.unreadable)
    ⊎ ((pad : ℕ) × (saved : FlowState) × (boot.file ≡ content (export_record pad saved))
        × IsStorable saved
        × IsSound saved
        × (boot.memory.has_room (length saved.ip_table) ≡ true)
        × ((i : ℕ) → FitsHost (boot.memory.heap i))
        × ((st : Settings)
            → load_config system boot.document no_settings ≡ done (some st)
            → st.sum_ip_count ≤ length saved.ip_table))

-- The loop begins with sound counters, nothing written yet, and a whitelist that ends.
abbrev pub IsReady : Started → Type 0
IsReady quits = Unit
IsReady dies = Unit
IsReady (runs d whitelist) = IsDay 0 d × HasEnd whitelist

-- What `ImportRecord` leaves is sound.
abbrev Kept : Imported → Type 0
Kept Imported.exits = Unit
Kept (Imported.returns n st) = IsSound st

module _ (system : System) (q : SubnetSort) (boot : Boot) (st : Settings)
    (loaded : load_config system boot.document no_settings ≡ done (some st))
    (stated : IsStated 8 st) where
  import-Kept : IsToday system boot → Kept (import_record boot.memory boot.file (fresh q boot st))
  unfolding import_record
  import-Kept (inl e) = rw e (fresh-IsSound q boot st stated)
  import-Kept (inr (pad, saved, e, storable, sound, room, heap, enough)) =
      let zeros = All-replicate FitsHost st.sum_ip_count zero_flow zero_flow-FitsHost in
      let few : length (replicate st.sum_ip_count zero_flow) ≤ max_stored =
        omega
          (arith, length-replicate st.sum_ip_count zero_flow, enough st loaded, storable.count) in
      let none_left : drop (length saved.ip_table) (replicate st.sum_ip_count zero_flow) ≡ [] =
        drop-replicate (length saved.ip_table) st.sum_ip_count zero_flow (enough st loaded) in
      rw
        (
          e,
          import_record-export_record boot.memory pad saved (fresh q boot st) storable zeros heap
              room few,
          none_left,
          append-nil saved.ip_table,
        )
        (record { nets_valid = sound.nets_valid; small = sound.small; table = sound.table })

  start_table-IsReady :
      (whitelist : List ℕ)
      → IsToday system boot
      → HasEnd whitelist
      → IsReady (start_table q boot st whitelist)
  unfolding start_table open_loop
  start_table-IsReady whitelist today ended = elim (Bool-cases (boot.has_table st.sum_ip_count)) [
    | inr e ↦ rw (e, start_table) tt
    | inl e ↦
        rw (e, start_table)
          (opened (import_record boot.memory boot.file (fresh q boot st)) (import-Kept today))
  ]
    where
      opened :
          (r : Imported)
          → Kept r
          → IsReady (elim r [
            | Imported.exits ↦ dies
            | Imported.returns _ flows ↦ open_loop boot st whitelist flows
          ])
      opened Imported.exits kept = tt
      opened (Imported.returns n flows) kept = elim (Bool-cases (boot.opens st)) [
        | inr e ↦ rw (e, open_loop) tt
        | inl e ↦ rw (e, open_loop) (record { sound = kept; balanced = tt; count = refl }, ended)
      ]

  start_with-IsReady :
      (hosts : List (Option Text))
      → boot.whitelist ≡ Whitelist.entries hosts
      → ((addr : ℕ) → matches st.nets addr ≤ 1)
      → IsToday system boot
      → Returns (start_with system q boot (some st)) IsReady
  unfolding start_with
  start_with-IsReady hosts e apart today = elim (Bool-cases (length st.nets == 0)) [
    | inl empty ↦ rw empty tt
    | inr some_nets ↦
        rw (some_nets, e)
          (>>=-Returns
            (load_whitelist system.inet_addr st.nets (Whitelist.entries hosts) (replicate 50 0)) _
            (IsLoaded (first_address system.inet_addr st.nets hosts)) IsReady
            (load_whitelist-first system.inet_addr st.nets apart hosts (replicate 50 0))
            (loaded_list hosts today))
  ]
    where
      loaded_list :
          (hosts : List (Option Text))
          → IsToday system boot
          → (w : Loaded) → IsLoaded (first_address system.inet_addr st.nets hosts) w
          → Returns {A = Started}
              (elim w [
                | Loaded.exits ↦ done dies
                | Loaded.returns _ whitelist ↦ done (start_table q boot st whitelist)
              ])
              IsReady
      loaded_list hosts today Loaded.exits sees = absurd sees
      loaded_list hosts today (Loaded.returns n whitelist) sees =
          start_table-IsReady whitelist today sees.0

-- The start of the daemon with a configuration whose `myNetwork` is no network or has a prefix
-- length from 1 to 31, and whose `statedNetworks` are no networks or have prefix lengths from 8 to
-- 31, no address being in two of them, with an array of a whitelist. There is no readable file of
-- the day, or it is one that `ExportRecord` wrote from sound counters, with at least as many entries
-- as the subnets have addresses, at most 5,162,220, and values of their C types, and there is memory for it. Then `main`
-- ends, or reaches its loop with sound counters, no table given to `ExportRecord` yet, and a whitelist with a free
-- cell.
pub start-IsReady :
    (system : System) (q : SubnetSort) (boot : Boot) (get : Key → Option Json)
    (hosts : List (Option Text))
    → boot.document ≡ Document.object get
    → ProperNetwork system (get Key.key_my_network)
    → ProperStated system 8 (get Key.key_stated_networks)
    → boot.whitelist ≡ Whitelist.entries hosts
    → ((st : Settings)
        → load_config system boot.document no_settings ≡ done (some st)
        → (addr : ℕ) → matches st.nets addr ≤ 1)
    → IsToday system boot
    → Returns (start system q boot) IsReady
unfolding start
start-IsReady system q boot get hosts e proper_net proper e_hosts apart today =
    let read : Returns (load_config system boot.document no_settings) (IsSomeWith (IsStated 8)) =
      rw e (
        load_config-IsStated system 8 get no_settings (omega arith) proper_net proper
          (refl, refl)) in
    begun (load_config system boot.document no_settings) refl read
  where
    begun :
        (m : Run (Option Settings))
        → load_config system boot.document no_settings ≡ m
        → Returns m (IsSomeWith (IsStated 8))
        → Returns (m >>= start_with system q boot) IsReady
    begun (done none) same h = absurd h
    begun (done (some st)) same h =
        start_with-IsReady system q boot st same h hosts e_hosts (apart st same) today
    begun Run.undefined same h = absurd h
    begun Run.out_of_fuel same h = absurd h
