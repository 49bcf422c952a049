-- ===== src/Tests/Process.antt =====
-- The loop over the sockets, the handlers and the process, and the theorems about them at inputs that meet their
-- hypotheses.
use flowstatd.Base.{
  ℕ, ◌≤◌, ◌<◌, ◌≡◌, refl, arith, ltb, leb, ◌==◌, ◌&&◌, true, inl, inr, List, [], ◌∷◌, map, length,
  All-replicate, replicate, some, none, done, ◌>>=◌, Returns, Whenever,
}
use flowstatd.Base.Words.{read_be16}
use flowstatd.Base.Reads.{IsBytes}
use flowstatd.Lookup.Index.{total}
use flowstatd.Select
use flowstatd.Update
use flowstatd.V9.Tables.{init_tables}
use flowstatd.Daemon.{Datagram, Daemon, add_flow_data, turn_hour, receive}
use flowstatd.Select.{FdSet, is_active, wait}
use flowstatd.Select.Bound.{Selects}
use flowstatd.Records.{File, export_record, content}
use flowstatd.FileName.{Disk, write_file, export_name, import_name}
use flowstatd.Records.Codec.{zero_flow-FitsHost}
use flowstatd.Whitelist
use flowstatd.Whitelist.{load_whitelist}
use flowstatd.Start.{runs, start}
use flowstatd.Start.Sound.{IsReady}
use flowstatd.Command.{Request, parse_cmd}
use flowstatd.Command.Secret.{IsDiscreet}
use flowstatd.Update.{update}
use flowstatd.Loop.{
  Sockets, set_up, Offer, packet, client, goes_on, serve_netflow, serve, serve_all, main_loop,
  Round,
}
use flowstatd.Loop.Clients.{
  clients, unasked, IsStarved, set_up-IsSetUp, serve_all_quiet, serve_all_busy,
}
use flowstatd.Loop.Packets.{IsGiven, IsServed, main_loop-IsServed}
use flowstatd.Process.{
  Release, exits, running, ended, World, Step, Reach, here, next, iteration, hup, term,
}
use flowstatd.Process.Alive.{written, IsAlive, Reach-IsAlive, Reach-IsDiscreet}
use flowstatd.Process.Generations.{Continues, Reach-Continues}
use flowstatd.Handlers.{Objects, no_tables, netflow_handler_init, dispatch_all}
use flowstatd.Handlers.Direct.{handle_all, dispatch_all-netflow_handler_init}
use flowstatd.Tests.Sample.{empty}
use flowstatd.Tests.Loops.{machine, started, started-IsDay, at_hour, at_hour-IsSmall}
use flowstatd.Tests.Files.{
  address_of, system, saved, saved-IsSound, saved-IsStorable, sorted, boot, stated, text_a,
  load_config-stated, stated_some, matches_a, network_a_proper, networks_proper,
}
use flowstatd.Tests.Names.{march, march-IsDate}
use flowstatd.Tests.Commands
use flowstatd.Tests.Files
use flowstatd.Tests.Commands.{server, no_key}

abbrev sockets : Sockets
sockets = record { netflow_fd = 3; command_fd = 4 }

-- Only the command socket is ready, and both are.
abbrev one_ready : FdSet
one_ready i = i == 4

abbrev both_ready : FdSet
both_ready i = leb 3 i

-- A `select` that sets what is ready.
abbrev scan : FdSet → ℕ → FdSet → FdSet
scan ready n s fd = ltb fd n && (s fd && ready fd)

scan-Selects : (ready : FdSet) → Selects ready (scan ready)
scan-Selects ready n s fd = refl

serve_all_quiet_example :
    serve_all machine sockets
      (wait (scan one_ready) (set_up sockets))
      (clients (7 ∷ 8 ∷ []) [])
      started
    ≡ done (goes_on (map client (7 ∷ 8 ∷ [])) started)
serve_all_quiet_example =
    serve_all_quiet machine sockets one_ready (scan one_ready) (scan-Selects one_ready)
      (set_up sockets) (set_up-IsSetUp sockets) (7 ∷ 8 ∷ []) [] started refl refl

-- A packet and a client.
abbrev offer_at : ℕ → Offer
offer_at hour = record { datagram = some (at_hour hour); peer = some 7 }

serve_all_busy_example :
    (serve_all machine sockets
        (wait (scan both_ready) (set_up sockets))
        (offer_at 23 ∷ offer_at 0 ∷ [])
        started
      ≡ serve_all machine sockets
          (wait (scan both_ready) (set_up sockets))
          (map unasked (offer_at 23 ∷ offer_at 0 ∷ []))
          started)
    × Whenever
        (serve_all machine sockets
          (wait (scan both_ready) (set_up sockets))
          (offer_at 23 ∷ offer_at 0 ∷ [])
          started)
        (IsStarved (length (offer_at 23 ∷ offer_at 0 ∷ [])))
serve_all_busy_example =
    serve_all_busy machine sockets both_ready (scan both_ready) (scan-Selects both_ready)
      (set_up sockets) (set_up-IsSetUp sockets) (offer_at 23 ∷ offer_at 0 ∷ []) started refl

offer_at-IsGiven : (hour : ℕ) → IsGiven (offer_at hour)
offer_at-IsGiven hour = record { fine = at_hour-IsSmall hour; fd = 7; asked = refl }

abbrev rounds : List Round
rounds =
    record { select = scan both_ready; offers = offer_at 23 ∷ offer_at 0 ∷ [] }
    ∷ record { select = scan one_ready; offers = offer_at 0 ∷ [] }
    ∷ []

main_loop-IsServed_example :
    Returns (main_loop machine sockets (set_up sockets) rounds started) (IsServed machine 0 started)
main_loop-IsServed_example =
    main_loop-IsServed machine sockets (set_up sockets) rounds started 0
      ((offer_at-IsGiven 23, (offer_at-IsGiven 0, tt)), ((offer_at-IsGiven 0, tt), tt))
      started-IsDay

abbrev world : World
world = record { machine = machine; sockets = sockets; inet_addr = address_of; pad = 0 }

-- A loop that begins at 23 hours with the counters of a file.
abbrev begun : Daemon
begun = record {
  state = record { tables = init_tables; flows = saved };
  pre_hour = 23;
  exported = [];
}

-- A packet of version 7, of which nothing is counted, at midnight.
abbrev unknown : Datagram
unknown = record {
  buf = 0 ∷ 7 ∷ replicate 8190 0;
  n = 2;
  source_ip = 1;
  now = record { tm_mday = 4; tm_hour = 0 };
}

unknown-IsBytes : IsBytes unknown.buf
unknown-IsBytes = (omega arith, (omega arith, All-replicate (λ b. b < 256) 8190 0 (omega arith)))

-- The whitelist at the start, which SIGHUP does not change when the file has no whitelist.
abbrev listed : List ℕ
listed = server.whitelist

begun-IsReady : IsReady (runs begun listed)
begun-IsReady = (record { sound = saved-IsSound; balanced = tt; count = refl }, inr (inl refl))

-- At midnight the table is written and cleared.
turned :
    serve machine sockets
      (wait (scan both_ready) (set_up sockets))
      (record { datagram = some unknown; peer = none })
      begun
    ≡ done (goes_on (packet unknown) (turn_hour unknown.now begun))
unfolding serve is_active wait set_up Select.add_to_list Select.init serve_netflow receive
    add_flow_data turn_hour read_be16
turned = refl

reloaded :
    (d : Daemon)
    → update address_of Whitelist.invalid 0 d.state.flows listed
      ≡ done (Update.goes_on listed (export_record 0 d.state.flows))
unfolding update load_whitelist
reloaded d = refl

abbrev midnight : Daemon
midnight = turn_hour unknown.now begun

-- A packet, and SIGHUP.
to_midnight : Reach world (running begun listed) (running midnight listed)
to_midnight =
    next
      (next here (
        iteration (wait (scan both_ready) (set_up sockets))
          (record { datagram = some unknown; peer = none }) (packet unknown) begun midnight listed
          unknown-IsBytes turned))
      (hup Whitelist.invalid midnight listed listed (export_record 0 midnight.state.flows)
        (reloaded midnight))

abbrev released : List Release
released = exits sockets 0 midnight.state.flows

to_end : Reach world (running begun listed) (ended released)
to_end = next to_midnight (term midnight listed)

Reach-IsAlive_example : IsAlive world (running begun listed) saved.nets (ended released)
Reach-IsAlive_example =
    Reach-IsAlive world begun listed (ended released) begun-IsReady matches_a to_end

Reach-IsDiscreet_example :
    Whenever
      (parse_cmd server (Request.object Commands.get) midnight.state.flows)
      (IsDiscreet listed)
Reach-IsDiscreet_example =
    Reach-IsDiscreet world begun midnight listed listed server Commands.get begun-IsReady matches_a
      to_midnight refl no_key

abbrev no_files : Disk
no_files name = File.unopened

stated_enough : stated.sum_ip_count ≤ total saved.nets
stated_enough = omega arith

Reach-Continues_example :
    (last : Daemon) × (ws' : List ℕ) × Reach world (running begun listed) (running last ws')
    × Step world (running last ws') (ended released)
    × (written released ≡ export_record 0 last.state.flows ∷ [])
    × Returns
        (start system sorted (record boot {
          file =
              write_file
                (export_name stated.save_prefix march)
                (content (export_record 0 last.state.flows))
                no_files
                (import_name stated.save_prefix march);
        }))
        (Continues last.state.flows)
Reach-Continues_example =
    Reach-Continues world begun listed released begun-IsReady matches_a saved-IsStorable system
      sorted boot stated (some text_a ∷ []) Files.get refl network_a_proper networks_proper
      load_config-stated stated_some refl matches_a stated_enough refl (λ i. zero_flow-FitsHost)
      refl refl no_files march (omega arith) march-IsDate to_end

-- Before the handlers are made.
abbrev objects : Objects
objects = record {
  heap = none ∷ [];
  nf_handler_v5 = none;
  nf_handler_v9 = none;
  state = record { tables = no_tables; flows = empty };
}

dispatch_all-netflow_handler_init_example : Returns (netflow_handler_init true objects) (λ o'.
    dispatch_all machine (at_hour 0 ∷ unknown ∷ []) o' ≡ (
      handle_all machine (at_hour 0 ∷ unknown ∷ []) (record objects.state { tables = init_tables })
      >>= λ st. done (record o' { state = st })))
dispatch_all-netflow_handler_init_example =
    dispatch_all-netflow_handler_init machine (at_hour 0 ∷ unknown ∷ []) objects
