-- ===== src/Process/Generations.antt =====
-- A daemon, and those that are started after it.
use flowstatd.Base.{
  ℕ, ◌≤◌, ◌≡◌, ◌≢◌, sym, ap, subst, ◌∙◌, List, [], ◌∷◌, length, inr, Option, some, true, Run, done,
  Returns, Returns-both, Returns-weaken,
}
use flowstatd.Lookup.Index.{total}
use flowstatd.Flow.{FlowState}
use flowstatd.Flow.Shape.{IsSound}
use flowstatd.Daemon.{Daemon}
use flowstatd.Records.{export_record, content}
use flowstatd.Records.Codec.{FitsHost}
use flowstatd.Records.RoundTrip.{IsStorable}
use flowstatd.Whitelist
use flowstatd.FileName.{Disk, Date, write_file, export_name, import_name}
use flowstatd.FileName.Days.{IsDate, write_file-import_name}
use flowstatd.Whitelist.First.{matches}
use flowstatd.Config.{Json, Key, Document, System, Settings, load_config}
use flowstatd.Config.Loaded.{ProperNetwork, ProperStated}
use flowstatd.Config.Strings.{Text}
use flowstatd.Start.{SubnetSort, Boot, Started, runs, no_settings, start}
use flowstatd.Start.Sound.{IsReady, start-IsReady}
use flowstatd.Update.Restart.{Resumes}
use flowstatd.Process.{Release, running, ended, World, Step, Reach}
use flowstatd.Process.Alive.{written, AreApart, Reach-IsAlive}
use flowstatd.Process.Durable.{last-IsStorable, Reach-Resumes}

-- The counters that a loop begins with can be stored.
abbrev pub AreStorable : Started → Type 0
AreStorable Started.quits = Unit
AreStorable Started.dies = Unit
AreStorable (runs d ws) = IsStorable d.state.flows

-- The loop begins with the subnets and the counters of `st`, and as is asked of a loop in the first place.
abbrev pub Continues : FlowState → Started → Type 0
Continues st s = Resumes st s × IsReady s × AreApart s × AreStorable s

Resumes-Continues :
    (st : FlowState) (s : Started)
    → IsStorable st
    → ((addr : ℕ) → matches st.nets addr ≤ 1)
    → Resumes st s × IsReady s
    → Continues st s
Resumes-Continues st Started.quits storable apart (resumes, ready) = absurd resumes
Resumes-Continues st Started.dies storable apart (resumes, ready) = absurd resumes
Resumes-Continues st (runs d ws) storable apart (resumes, ready) = (
  resumes,
  ready,
  rw resumes.0 apart,
  record {
    nets = rw resumes.0 storable.nets;
    few = rw resumes.0 storable.few;
    table = rw resumes.1 storable.table;
    count = rw resumes.1 storable.count;
  },
)

-- The same settings are loaded.
settings_eq :
    (system : System) (document : Document) (st settings : Settings)
    → load_config system document no_settings ≡ done (some settings)
    → load_config system document no_settings ≡ done (some st)
    → settings ≡ st
settings_eq system document st settings loaded e = ap got (sym loaded ∙ e)
  where
    got : Run (Option Settings) → Settings
    got (done (some st')) = st'
    got m = settings

module _ (w : World) (d : Daemon) (ws : List ℕ) (rs : List Release) (ready : IsReady (runs d ws))
    (apart : AreApart (runs d ws)) (storable : AreStorable (runs d ws)) (system : System)
    (q : SubnetSort) (boot : Boot) (settings : Settings) (hosts : List (Option Text))
    (get : Key → Option Json) (described : boot.document ≡ Document.object get)
    (proper_network : ProperNetwork system (get Key.key_my_network))
    (proper_stated : ProperStated system 8 (get Key.key_stated_networks))
    (loaded : load_config system boot.document no_settings ≡ done (some settings))
    (some_nets : length settings.nets ≢ 0) (listed : boot.whitelist ≡ Whitelist.entries hosts)
    (stated_apart : (addr : ℕ) → matches settings.nets addr ≤ 1)
    (enough : settings.sum_ip_count ≤ total d.state.flows.nets)
    (room : boot.memory.has_room (total d.state.flows.nets) ≡ true)
    (heap : (i : ℕ) → FitsHost (boot.memory.heap i))
    (has_table : boot.has_table settings.sum_ip_count ≡ true) (opens : boot.opens settings ≡ true)
    (disk : Disk) (date : Date) (short : length settings.save_prefix ≤ 71)
    (dated : IsDate date) where
  -- The start that finds the file of the process that ended.
  abbrev start_after : FlowState → Run Started
  start_after st = start system q (record boot {
    file =
        write_file (export_name settings.save_prefix date) (content (export_record w.pad st)) disk
          (import_name settings.save_prefix date);
  })

  start_after-IsReady :
      (st : FlowState)
      → IsStorable st
      → IsSound st
      → length st.ip_table ≡ total d.state.flows.nets
      → Returns (start_after st) IsReady
  start_after-IsReady st stored sound size =
      start-IsReady system q _ get hosts described proper_network proper_stated listed
        (λ st' e.
          subst (λ (x : Settings). (addr : ℕ) → matches x.nets addr ≤ 1)
            (settings_eq system boot.document st' settings loaded e) stated_apart)
        (inr (
          w.pad,
          st,
          write_file-import_name settings.save_prefix date (content (export_record w.pad st)) disk
              short dated,
          stored,
          sound,
          rw size room,
          heap,
          λ st' e. rw (sym (settings_eq system boot.document st' settings loaded e), size) enough,
        ))

  -- A loop begins as the start leaves it, with no address in two of its subnets, at most 5,162,220 addresses in
  -- them, and values of their C types, and the process is ended by SIGINT or SIGTERM, after whatever packets,
  -- clients and SIGHUPs. Until this step it was running, and by it it wrote one file, of the counters that it
  -- had then. When the file is written under the name of a date, with a year of four digits and a directory of
  -- at most 71 bytes, a daemon that is started on this date with this directory begins its loop with the subnets
  -- and the counters that the process had, and all that was asked of the first loop holds of it again. Its
  -- configuration states a network, no address twice, no more addresses than the subnets have, and prefix
  -- lengths from 8 to 31, `myNetwork` being no network or one with a prefix length from 1 to 31; there is
  -- memory, and the sockets can be set up.
  pub Reach-Continues :
      Reach w (running d ws) (ended rs)
      → (last : Daemon) × (ws' : List ℕ) × Reach w (running d ws) (running last ws')
        × Step w (running last ws') (ended rs)
        × (written rs ≡ export_record w.pad last.state.flows ∷ [])
        × Returns (start_after last.state.flows) (Continues last.state.flows)
  Reach-Continues reach =
      let (last, ws', reach', told, file, resumed) =
        Reach-Resumes w d ws rs ready apart storable system q boot settings hosts loaded some_nets
          listed stated_apart enough room heap has_table opens disk date short dated reach in
      let serving = (Reach-IsAlive w d ws (running last ws') ready apart reach').0 in
      let (stored, size) = last-IsStorable w d last ws ws' ready apart storable reach' in
      let again = start_after-IsReady last.state.flows stored serving.day.sound size in
      (
        last,
        ws',
        reach',
        told,
        file,
        Returns-weaken (start_after last.state.flows) _ _
            (Returns-both (start_after last.state.flows) (Resumes last.state.flows) IsReady resumed
              again)
            (λ s h. Resumes-Continues last.state.flows s stored (rw serving.same_nets apart) h),
      )
