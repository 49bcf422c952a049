-- ===== src/Report/Hidden.antt =====
-- What the queries answer to a client that is not shown all.
use flowstatd.Base.{
  ℕ, zero, suc, ◌+◌, ◌/◌, ◌%◌, ◌≡◌, ◌⊎◌, refl, arith, leb, ltb, ◌==◌, ◌||◌, if◌then◌else◌, true,
  false, Bool-cases, inl, inr, List, [], ◌∷◌, length, All, Run, done, load, get_elem?, Whenever,
  Whenever-Unit, >>=-Whenever, ◌>>=◌,
}
use flowstatd.Base.Words.{word32}
use flowstatd.Flow.{Hour, HostFlow, FlowState, add64}
use flowstatd.Lookup.{get_ip_idx}
use flowstatd.Report.{
  mbytes, HourEntry, FlowEntry, Listing, invalid_param, listing, flow_entry, list_entry,
  over_entries, get_by_flow, top_entries, get_by_top_n, Qsort, hour_entry, hour_entries, IpReply,
  no_data, flows, is_our_net, is_hidden, load_index, reply_for, get_by_ip,
}
use flowstatd.Report.Whitelist.{HasEnd, listed, member, shown, is_shown_lem, in_whitelist_lem}

-- An address that no entry of the whitelist before its first free cell names.
abbrev pub IsOpen : List ℕ → FlowEntry → Type 0
IsOpen ws e = member e.ip (listed ws) ≡ false

-- Every address of the list is open.
abbrev pub IsOpenListing : List ℕ → Listing → Type 0
IsOpenListing ws invalid_param = Unit
IsOpenListing ws (listing es) = All (IsOpen ws) es

-- A hidden entry.
abbrev IsBlank : HourEntry → Type 0
IsBlank e = (e.upload ≡ 0) × (e.download ≡ 0) × (e.total ≡ 0) × (e.incremental_total ≡ 0)

-- Nothing but zeros for an address that an entry of the whitelist before its first free cell names.
abbrev pub IsClosed : List ℕ → ℕ → IpReply → Type 0
IsClosed ws addr no_data = Unit
IsClosed ws addr (flows total_flow es) =
    (member addr (listed ws) ≡ false) ⊎ ((total_flow ≡ 0) × All IsBlank es)

module _ (ws : List ℕ) (ended : HasEnd ws) where
  list_entry-IsOpen :
      (host : HostFlow) (rank : ℕ) (rest : ℕ → Run (List FlowEntry))
      → ((r : ℕ) → Whenever (rest r) (All (IsOpen ws)))
      → Whenever (list_entry (shown false ws host) rank host rest) (All (IsOpen ws))
  unfolding list_entry flow_entry
  list_entry-IsOpen host rank rest h = elim (Bool-cases (shown false ws host)) [
    | inl s ↦ rw s (
        >>=-Whenever (rest ((rank + 1) % word32)) _ (All (IsOpen ws)) (All (IsOpen ws))
          (h ((rank + 1) % word32)) (λ es all. (ground arith, all)))
    | inr s ↦ rw s (h rank)
  ]

  over_entries-IsOpen :
      (over_mb : ℕ) (hosts : List HostFlow) (rank : ℕ)
      → Whenever (over_entries false ws over_mb hosts rank) (All (IsOpen ws))
  unfolding over_entries
  over_entries-IsOpen over_mb [] rank = tt
  over_entries-IsOpen over_mb (host ∷ hosts) rank =
      elim (Bool-cases (leb over_mb (host.nflow.sum / mbytes))) [
        | inr low ↦ rw low tt
        | inl high ↦
            rw (high, is_shown_lem false ws host ended)
              (list_entry-IsOpen host rank (over_entries false ws over_mb hosts)
                (over_entries-IsOpen over_mb hosts))
      ]

  top_entries-IsOpen :
      (top_n : ℕ) (hosts : List HostFlow) (rank : ℕ)
      → Whenever (top_entries false ws top_n hosts rank) (All (IsOpen ws))
  unfolding top_entries
  top_entries-IsOpen top_n [] rank = elim (Bool-cases (ltb rank top_n)) [
    | inl e ↦ rw e tt
    | inr e ↦ rw e tt
  ]
  top_entries-IsOpen top_n (host ∷ hosts) rank = elim (Bool-cases (ltb rank top_n)) [
    | inr stop ↦ rw stop tt
    | inl go ↦
        rw (go, is_shown_lem false ws host ended)
          (list_entry-IsOpen host rank (top_entries false ws top_n hosts)
            (top_entries-IsOpen top_n hosts))
  ]

  pub get_by_flow-IsOpenListing :
      (q : Qsort) (over_mb : ℕ) (table : List HostFlow)
      → Whenever (get_by_flow q false ws over_mb table) (IsOpenListing ws)
  unfolding get_by_flow
  get_by_flow-IsOpenListing q over_mb table = elim (Bool-cases (over_mb == 0)) [
    | inl e ↦ rw e tt
    | inr e ↦ rw e (
        >>=-Whenever (over_entries false ws over_mb (q.qsort table) 0) _ (All (IsOpen ws))
          (IsOpenListing ws) (over_entries-IsOpen over_mb (q.qsort table) 0) (λ es all. all))
  ]

  pub get_by_top_n-IsOpenListing :
      (q : Qsort) (top_n : ℕ) (table : List HostFlow)
      → Whenever (get_by_top_n q false ws top_n table) (IsOpenListing ws)
  unfolding get_by_top_n
  get_by_top_n-IsOpenListing q top_n table =
      elim (Bool-cases (top_n == 0 || leb (length table) top_n)) [
        | inl e ↦ rw e tt
        | inr e ↦ rw e (
            >>=-Whenever (top_entries false ws top_n (q.qsort table) 0) _ (All (IsOpen ws))
              (IsOpenListing ws) (top_entries-IsOpen top_n (q.qsort table) 0) (λ es all. all))
      ]

  hour_entries-IsBlank :
      (hflow : List Hour) (rounds i total_flow : ℕ)
      → Whenever (hour_entries true hflow rounds i total_flow) (All IsBlank)
  unfolding hour_entries hour_entry
  hour_entries-IsBlank hflow zero i total_flow = tt
  hour_entries-IsBlank hflow (suc rounds) i total_flow =
      >>=-Whenever (load (get_elem? hflow i)) _ (λ h. Unit {0}) (All IsBlank)
        (Whenever-Unit (load (get_elem? hflow i)))
        λ h _.
          >>=-Whenever
            (hour_entries true hflow rounds (i + 1) (add64 total_flow (add64 h.upload h.download)))
            _ (All IsBlank) (All IsBlank)
            (hour_entries-IsBlank hflow rounds (i + 1)
              (add64 total_flow (add64 h.upload h.download)))
            (λ es all. ((refl, refl, refl, refl), all))

  pub get_by_ip-IsClosed :
      (addr : ℕ) (st : FlowState) → Whenever (get_by_ip false ws addr st) (IsClosed ws addr)
  unfolding get_by_ip reply_for is_hidden
  get_by_ip-IsClosed addr st = elim (Bool-cases (is_our_net st.nets addr)) [
    | inr e ↦ rw e tt
    | inl e ↦ rw e (
        >>=-Whenever (get_ip_idx st.nets st.my_net addr) _ (λ i. Unit {0}) (IsClosed ws addr)
          (Whenever-Unit (get_ip_idx st.nets st.my_net addr))
          λ i _. rw (in_whitelist_lem ws addr ended) (
            >>=-Whenever (load_index st.ip_table i) _ (λ h. Unit {0}) (IsClosed ws addr)
              (Whenever-Unit (load_index st.ip_table i)) λ host _. closed addr host))
  ]
    where
      closed :
          (addr : ℕ) (host : HostFlow)
          → Whenever
              (hour_entries (member addr (listed ws)) host.hflow 24 0 0 >>= λ entries.
                done (flows (if member addr (listed ws) then 0 else host.nflow.sum) entries))
              (IsClosed ws addr)
      closed addr host = elim (Bool-cases (member addr (listed ws))) [
        | inl e ↦ rw e (
            >>=-Whenever (hour_entries true host.hflow 24 0 0) _ (All IsBlank) _
              (hour_entries-IsBlank host.hflow 24 0 0) (λ es all. inr (refl, all)))
        | inr e ↦
            >>=-Whenever (hour_entries (member addr (listed ws)) host.hflow 24 0 0) _
              (λ es. Unit {0}) (IsClosed ws addr)
              (Whenever-Unit (hour_entries (member addr (listed ws)) host.hflow 24 0 0))
              (λ es _. inl e)
      ]
