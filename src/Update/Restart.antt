-- ===== src/Update/Restart.antt =====
-- A daemon that is started with the file of another one.
use mathlib.Core.List.{append-nil}
use flowstatd.Base.{
  drop-replicate, length-replicate, ℕ, ◌≤◌, ◌≡◌, ◌≢◌, refl, arith, ◌==◌, List, length, replicate,
  drop, All-replicate, Option, some, true, false, done, Returns, >>=-Returns, [],
}
use flowstatd.Flow.{FlowState, zero_flow}
use flowstatd.Records.{export_record, content}
use flowstatd.Records.Codec.{zero_flow-FitsHost, FitsHost}
use flowstatd.Records.Limit.{max_stored}
use flowstatd.Records.RoundTrip.{IsStorable, import_record-export_record}
use flowstatd.Whitelist
use flowstatd.Whitelist.{load_whitelist, Loaded}
use flowstatd.Whitelist.First.{matches, first_address, IsLoaded, load_whitelist-first}
use flowstatd.Config.Strings.{Text}
use flowstatd.Config.{System, Settings, load_config}
use flowstatd.Start.{
  SubnetSort, Boot, Started, quits, dies, runs, no_settings, open_loop, start_table, start_with,
  start,
}
use flowstatd.Update.{Updated, ends, goes_on, update}

-- The loop begins with the subnets and the counters of `st`.
abbrev pub Resumes : FlowState → Started → Type 0
Resumes st quits = ⊥
Resumes st dies = ⊥
Resumes st (runs d whitelist) =
    (d.state.flows.nets ≡ st.nets) × (d.state.flows.ip_table ≡ st.ip_table)

-- The handler comes back, and a daemon that finds its file resumes.
abbrev pub IsResumed : System → SubnetSort → Boot → FlowState → Updated → Type 0
IsResumed system q boot st ends = ⊥
IsResumed system q boot st (goes_on ws file) =
    Returns (start system q (record boot { file = content file })) (Resumes st)

module _ (system : System) (q : SubnetSort) (boot : Boot) (settings : Settings)
    (hosts : List (Option Text)) (pad : ℕ) (st : FlowState)
    (loaded : load_config system boot.document no_settings ≡ done (some settings))
    (some_nets : length settings.nets ≢ 0) (listed : boot.whitelist ≡ Whitelist.entries hosts)
    (apart : (addr : ℕ) → matches settings.nets addr ≤ 1) (storable : IsStorable st)
    (enough : settings.sum_ip_count ≤ length st.ip_table)
    (room : boot.memory.has_room (length st.ip_table) ≡ true)
    (heap : (i : ℕ) → FitsHost (boot.memory.heap i))
    (has_table : boot.has_table settings.sum_ip_count ≡ true)
    (opens : boot.opens settings ≡ true) where
  abbrev again : Boot
  again = record boot { file = content (export_record pad st) }

  start_table-Resumes : (ws : List ℕ) → Resumes st (start_table q again settings ws)
  unfolding start_table open_loop
  start_table-Resumes ws =
      let fresh : FlowState = record {
        nets = q.qsort settings.nets;
        my_net = settings.my_net;
        localtm = boot.now;
        ip_table = replicate settings.sum_ip_count zero_flow;
      } in
      let zeros = All-replicate FitsHost settings.sum_ip_count zero_flow zero_flow-FitsHost in
      let few : length (replicate settings.sum_ip_count zero_flow) ≤ max_stored =
        omega (arith, length-replicate settings.sum_ip_count zero_flow, enough, storable.count) in
      let none_left : drop (length st.ip_table) (replicate settings.sum_ip_count zero_flow) ≡ [] =
        drop-replicate (length st.ip_table) settings.sum_ip_count zero_flow enough in
      rw
        (
          has_table,
          import_record-export_record boot.memory pad st fresh storable zeros heap room few,
          opens,
        )
        (refl, rw none_left (append-nil st.ip_table))

  pub start-Resumes : Returns (start system q again) (Resumes st)
  unfolding start start_with
  start-Resumes =
      let nets : (length settings.nets == 0) ≡ false = (ground (arith, some_nets)) in
      rw (loaded, nets, listed)
        (>>=-Returns
          (load_whitelist system.inet_addr settings.nets (Whitelist.entries hosts) (replicate 50 0))
          _ (IsLoaded (first_address system.inet_addr settings.nets hosts)) (Resumes st)
          (load_whitelist-first system.inet_addr settings.nets apart hosts (replicate 50 0))
          resumed)
    where
      resumed :
          (w : Loaded)
          → IsLoaded (first_address system.inet_addr settings.nets hosts) w
          → Returns {A = Started}
              (elim w [
                | Loaded.exits ↦ done dies
                | Loaded.returns _ whitelist ↦ done (start_table q again settings whitelist)
              ])
              (Resumes st)
      resumed Loaded.exits sees = absurd sees
      resumed (Loaded.returns n ws) sees = start_table-Resumes ws

  -- A daemon handles SIGHUP, with an array of a whitelist, no address in two subnets, and counters
  -- of at most 5,162,220 entries with values of their C types. The handler comes back, and a daemon that is started with the file
  -- that it wrote, with a configuration that states a network, no address twice, and no more
  -- addresses than the file has entries, begins its loop with the same subnets and the same
  -- counters, if there is memory and the sockets can be set up.
  pub update-IsResumed :
      (whitelist : List ℕ)
      → ((addr : ℕ) → matches st.nets addr ≤ 1)
      → Returns
          (update system.inet_addr (Whitelist.entries hosts) pad st whitelist)
          (IsResumed system q boot st)
  unfolding update
  update-IsResumed whitelist alone =
      >>=-Returns (load_whitelist system.inet_addr st.nets (Whitelist.entries hosts) whitelist) _
        (IsLoaded (first_address system.inet_addr st.nets hosts)) (IsResumed system q boot st)
        (load_whitelist-first system.inet_addr st.nets alone hosts whitelist) written
    where
      written :
          (w : Loaded)
          → IsLoaded (first_address system.inet_addr st.nets hosts) w
          → Returns {A = Updated}
              (elim w [
                | Loaded.exits ↦ done ends
                | Loaded.returns n ws ↦ done (goes_on ws (export_record pad st))
              ])
              (IsResumed system q boot st)
      written Loaded.exits sees = absurd sees
      written (Loaded.returns n ws) sees = start-Resumes
