-- ===== src/Process/Durable.antt =====
-- What a process that is told to end has counted is what the next one begins with.
use flowstatd.Base.{
  ℕ, ◌≤◌, ◌≡◌, ◌≢◌, refl, arith, ◌==◌, ◌&&◌, true, Bool-cases, inl, inr, List, [], ◌∷◌, length,
  All-replicate, Option, some, done, Returns, Whenever, >>=-Whenever,
}
use flowstatd.Base.Reads.{IsBytes}
use flowstatd.Clock.{Tm}
use flowstatd.Lookup.Index.{total}
use flowstatd.Flow.{zero_flow}
use flowstatd.Daemon.{Machine, Datagram, Daemon, add_flow_data, turn_hour, receive}
use flowstatd.Daemon.Kept.{add_flow_data-Keeps}
use flowstatd.Records.{export_record, content}
use flowstatd.Records.Kept.{FitsTable, insert_nf_info-FitsTable}
use flowstatd.Records.Codec.{FitsHost, zero_flow-FitsHost}
use flowstatd.Records.RoundTrip.{IsStorable}
use flowstatd.Whitelist
use flowstatd.FileName.{Disk, Date, write_file, export_name, import_name}
use flowstatd.FileName.Days.{IsDate, write_file-import_name}
use flowstatd.Whitelist.First.{matches}
use flowstatd.Config.{System, Settings, load_config}
use flowstatd.Config.Strings.{Text}
use flowstatd.Start.{SubnetSort, Boot, runs, no_settings, start}
use flowstatd.Start.Sound.{IsReady}
use flowstatd.Update.Restart.{Resumes, start-Resumes}
use flowstatd.Process.{Release, exits, Process, running, ended, World, Step, term, Reach, next}
use flowstatd.Process.Kept.{Reach-Holds}
use flowstatd.Process.Alive.{written, AreApart, Reach-IsAlive}

-- The table of a daemon has values of its C types.
abbrev FitsDaemon : Daemon → Type 0
FitsDaemon d = FitsTable d.state.flows

turn_hour-FitsDaemon : (now : Tm) (d : Daemon) → FitsDaemon d → FitsDaemon (turn_hour now d)
unfolding turn_hour
turn_hour-FitsDaemon now d fits = elim (Bool-cases (d.pre_hour == 23 && now.tm_hour == 0)) [
  | inr same ↦ rw same fits
  | inl midnight ↦
      rw midnight
        (All-replicate FitsHost (length d.state.flows.ip_table) zero_flow zero_flow-FitsHost)
]

receive-FitsDaemon :
    (machine : Machine) (p : Datagram) (d : Daemon)
    → IsBytes p.buf
    → FitsDaemon d
    → Whenever (receive machine p d) FitsDaemon
unfolding receive
receive-FitsDaemon machine p d bytes fits =
    >>=-Whenever (add_flow_data machine p.buf p.n p.source_ip (turn_hour p.now d).state) _
      (λ st. FitsTable st.flows) FitsDaemon
      (add_flow_data-Keeps machine FitsTable p.buf p.n p.source_ip (turn_hour p.now d).state
        (insert_nf_info-FitsTable machine.platform) bytes (turn_hour-FitsDaemon p.now d fits))
      λ st kept. kept

-- A process that ended was running before, and did what `Exits` does.
record IsEnd (w : World) (p : Process) (rs : List Release) : Type 0 where
  last : Daemon
  ws : List ℕ
  reach : Reach w p (running last ws)
  told : Step w (running last ws) (ended rs)
  released : rs ≡ exits w.sockets w.pad last.state.flows

Reach-IsEnd :
    {w : World} {d : Daemon} {ws : List ℕ} {rs : List Release}
    → Reach w (running d ws) (ended rs)
    → IsEnd w (running d ws) rs
Reach-IsEnd (next r (term d ws)) = record {
  last = d;
  ws = ws;
  reach = r;
  told = term d ws;
  released = refl;
}

-- What the last process kept can be stored.
pub last-IsStorable :
    (w : World) (d last : Daemon) (ws ws' : List ℕ)
    → IsReady (runs d ws)
    → AreApart (runs d ws)
    → IsStorable d.state.flows
    → Reach w (running d ws) (running last ws')
    → IsStorable last.state.flows × (length last.state.flows.ip_table ≡ total d.state.flows.nets)
last-IsStorable w d last ws ws' ready apart storable reach =
    let serving = (Reach-IsAlive w d ws (running last ws') ready apart reach).0 in
    let size : length last.state.flows.ip_table ≡ total d.state.flows.nets =
      rw serving.same_nets at serving.day.sound.table.size in
    let begun : length d.state.flows.ip_table ≡ total d.state.flows.nets =
      ready.0.sound.table.size in
    let fits : FitsDaemon last =
      Reach-Holds w FitsDaemon (λ p d' bytes fits. receive-FitsDaemon w.machine p d' bytes fits)
        reach storable.table in
    (
      record {
        nets = rw serving.same_nets storable.nets;
        few = rw serving.same_nets storable.few;
        table = fits;
        count = omega (arith, size, begun, storable.count);
      },
      size,
    )

module _ (w : World) (d : Daemon) (ws : List ℕ) (rs : List Release) (ready : IsReady (runs d ws))
    (apart : AreApart (runs d ws)) (storable : IsStorable d.state.flows) (system : System)
    (q : SubnetSort) (boot : Boot) (settings : Settings) (hosts : List (Option Text))
    (loaded : load_config system boot.document no_settings ≡ done (some settings))
    (some_nets : length settings.nets ≢ 0) (listed : boot.whitelist ≡ Whitelist.entries hosts)
    (stated_apart : (addr : ℕ) → matches settings.nets addr ≤ 1)
    (enough : settings.sum_ip_count ≤ total d.state.flows.nets)
    (room : boot.memory.has_room (total d.state.flows.nets) ≡ true)
    (heap : (i : ℕ) → FitsHost (boot.memory.heap i))
    (has_table : boot.has_table settings.sum_ip_count ≡ true) (opens : boot.opens settings ≡ true)
    (disk : Disk) (date : Date) (short : length settings.save_prefix ≤ 71)
    (dated : IsDate date) where
  -- A loop begins as the start leaves it, with no address in two of its subnets, at most 5,162,220 addresses in
  -- them, and values of their C types, and the process is ended by SIGINT or SIGTERM, after whatever packets,
  -- clients and SIGHUPs. Until this step it was running, and by it it wrote one file, of the counters that it
  -- had then. When the file is written under the name of a date, with a year of four digits and a directory of
  -- at most 71 bytes, a daemon that is started on this date with this directory begins its loop with the subnets
  -- and the counters that the process had, if its configuration states a network, no address twice, and no more
  -- addresses than the subnets have, there is memory, and the sockets can be set up.
  pub Reach-Resumes :
      Reach w (running d ws) (ended rs)
      → (last : Daemon) × (ws' : List ℕ) × Reach w (running d ws) (running last ws')
        × Step w (running last ws') (ended rs)
        × (written rs ≡ export_record w.pad last.state.flows ∷ [])
        × Returns
            (start system q (record boot {
              file =
                  write_file
                    (export_name settings.save_prefix date)
                    (content (export_record w.pad last.state.flows))
                    disk
                    (import_name settings.save_prefix date);
            }))
            (Resumes last.state.flows)
  unfolding exits
  Reach-Resumes reach =
      let end = Reach-IsEnd reach in
      let (stored, size) = last-IsStorable w d end.last ws end.ws ready apart storable end.reach in
      (
        end.last,
        end.ws,
        end.reach,
        end.told,
        rw end.released refl,
        rw
            (write_file-import_name settings.save_prefix date
              (content (export_record w.pad end.last.state.flows)) disk short dated)
            (start-Resumes system q boot settings hosts w.pad end.last.state.flows loaded some_nets
              listed stated_apart stored (rw size enough) (rw size room) heap has_table opens),
      )
