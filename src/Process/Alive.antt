-- ===== src/Process/Alive.antt =====
-- What holds of every process that the loop and the signals can lead to.
use flowstatd.Base.{
  ℕ, ◌≤◌, ◌≡◌, refl, List, [], ◌∷◌, Option, done, Returns-Ends, Ends-Whenever, Whenever,
  Whenever-weaken, >>=-Whenever,
}
use flowstatd.Subnet.{Subnet}
use flowstatd.Flow.{FlowState}
use flowstatd.Daemon.{Daemon}
use flowstatd.Daemon.Kept.{IsServing, receive-IsServing}
use flowstatd.Records.{export_record}
use flowstatd.Report.Whitelist.{HasEnd}
use flowstatd.Whitelist
use flowstatd.Whitelist.{load_whitelist, Loaded}
use flowstatd.Whitelist.First.{matches, first_address, IsLoaded, load_whitelist-first}
use flowstatd.Config.{Json}
use flowstatd.Config.Strings.{Text}
use flowstatd.Start.{Started, runs}
use flowstatd.Start.Sound.{IsReady}
use flowstatd.Command.{Field, Request, Server, parse_cmd}
use flowstatd.Command.Secret.{IsNoKey, IsDiscreet, parse_cmd-IsDiscreet}
use flowstatd.Update
use flowstatd.Update.{Updated, update}
use flowstatd.Process.Kept.{Whenever-value, Step-Holds}
use flowstatd.Process.Fatal.{IsFatal, accept_fails-IsFatal, hup_ends-IsFatal}
use flowstatd.Process.{
  Release, closes, frees_multiplexer, writes_today, frees_table, exits, Process, running, ended,
  died, World, Step, iteration, accept_fails, hup, hup_ends, term, Reach, here, next,
}

-- The files of today that a process writes at its end.
abbrev pub written : List Release → List (List ℕ)
written [] = []
written (writes_today file ∷ rs) = file ∷ written rs
written (closes fd ∷ rs) = written rs
written (frees_multiplexer ∷ rs) = written rs
written (frees_table ∷ rs) = written rs

-- The whitelist that goes on has a free cell.
abbrev IsRead : Loaded → Type 0
IsRead Loaded.exits = Unit
IsRead (Loaded.returns n ws) = HasEnd ws

abbrev IsListed : Updated → Type 0
IsListed Update.ends = Unit
IsListed (Update.goes_on ws file) = HasEnd ws

module _ (inet_addr : Text → ℕ) (nets : List Subnet)
    (apart : (addr : ℕ) → matches nets addr ≤ 1) where
  load_whitelist-IsRead :
      (config : Whitelist.Config Text) (ws : List ℕ)
      → HasEnd ws
      → Whenever (load_whitelist inet_addr nets config ws) IsRead
  unfolding load_whitelist
  load_whitelist-IsRead Whitelist.unreadable ws has_end = tt
  load_whitelist-IsRead Whitelist.invalid ws has_end = has_end
  load_whitelist-IsRead (Whitelist.entries hosts) ws has_end =
      Whenever-weaken (load_whitelist inet_addr nets (Whitelist.entries hosts) ws) _ IsRead
        (Ends-Whenever (load_whitelist inet_addr nets (Whitelist.entries hosts) ws) _ (
          Returns-Ends (load_whitelist inet_addr nets (Whitelist.entries hosts) ws) _
            (load_whitelist-first inet_addr nets apart hosts ws)))
        seen
    where
      seen : (w : Loaded) → IsLoaded (first_address inet_addr nets hosts) w → IsRead w
      seen Loaded.exits h = tt
      seen (Loaded.returns n ws') h = h.0

update-IsListed :
    (inet_addr : Text → ℕ) (config : Whitelist.Config Text) (pad : ℕ) (st : FlowState) (ws : List ℕ)
    → ((addr : ℕ) → matches st.nets addr ≤ 1)
    → HasEnd ws
    → Whenever (update inet_addr config pad st ws) IsListed
unfolding update
update-IsListed inet_addr config pad st ws apart has_end =
    >>=-Whenever (load_whitelist inet_addr st.nets config ws) _ IsRead IsListed
      (load_whitelist-IsRead inet_addr st.nets apart config ws has_end) listed
  where
    listed :
        (w : Loaded)
        → IsRead w
        → Whenever {A = Updated}
            (elim w [
              | Loaded.exits ↦ done Update.ends
              | Loaded.returns n ws' ↦ done (Update.goes_on ws' (export_record pad st))
            ])
            IsListed
    listed Loaded.exits h = tt
    listed (Loaded.returns n ws') h = h

-- The process was running with sound counters of these subnets before.
abbrev pub IsLast : World → Process → List Subnet → Daemon → List ℕ → Type 0
IsLast w start nets last ws = Reach w start (running last ws) × IsServing nets last × HasEnd ws

-- A running process has sound counters of these subnets and a whitelist with a free cell. One that was told to end
-- was such a process, and by this step wrote one file, of its last counters; and one that died was such a process, and met
-- a failed `accept` or an unreadable configuration.
abbrev pub IsAlive : World → Process → List Subnet → Process → Type 0
IsAlive w start nets (running d ws) = IsServing nets d × HasEnd ws
IsAlive w start nets (ended rs) =
    (last : Daemon) × (ws : List ℕ) × IsLast w start nets last ws
    × Step w (running last ws) (ended rs)
    × (written rs ≡ export_record w.pad last.state.flows ∷ [])
IsAlive w start nets died =
    (last : Daemon) × (ws : List ℕ) × IsLast w start nets last ws
    × (step : Step w (running last ws) died) × IsFatal step

module _ (w : World) (start : Process) (nets : List Subnet)
    (apart : (addr : ℕ) → matches nets addr ≤ 1) where
  Step-IsAlive :
      {p q : Process}
      → Reach w start p
      → Step w p q
      → IsAlive w start nets p
      → IsAlive w start nets q
  unfolding exits
  Step-IsAlive r (iteration m offer act d d' ws real e) (serving, has_end) = (
    Step-Holds w (IsServing nets)
        (λ p d bytes holds. receive-IsServing w.machine p d nets bytes holds)
        (iteration m offer act d d' ws real e) serving,
    has_end,
  )
  Step-IsAlive r (accept_fails m offer d ws e) (serving, has_end) = (
    d,
    ws,
    (r, serving, has_end),
    accept_fails m offer d ws e,
    accept_fails-IsFatal w m offer d e,
  )
  Step-IsAlive r (hup config d ws ws' file e) (serving, has_end) = (
    serving,
    Whenever-value (update w.inet_addr config w.pad d.state.flows ws) IsListed
        (update-IsListed w.inet_addr config w.pad d.state.flows ws (rw serving.same_nets apart)
          has_end)
        e,
  )
  Step-IsAlive r (hup_ends config d ws e) (serving, has_end) = (
    d,
    ws,
    (r, serving, has_end),
    hup_ends config d ws e,
    hup_ends-IsFatal w config d ws (rw serving.same_nets apart) e,
  )
  Step-IsAlive r (term d ws) (serving, has_end) = (d, ws, (r, serving, has_end), term d ws, refl)

  IsAlive-Reach :
      {q : Process} → Reach w start q → IsAlive w start nets start → IsAlive w start nets q
  IsAlive-Reach here alive = alive
  IsAlive-Reach (next r step) alive = Step-IsAlive r step (IsAlive-Reach r alive)

-- The subnets that a process begins with.
abbrev pub AreApart : Started → Type 0
AreApart Started.quits = Unit
AreApart Started.dies = Unit
AreApart (runs d ws) = (addr : ℕ) → matches d.state.flows.nets addr ≤ 1

IsReady-IsAlive :
    (w : World) (d : Daemon) (ws : List ℕ)
    → IsReady (runs d ws)
    → IsAlive w (running d ws) d.state.flows.nets (running d ws)
IsReady-IsAlive w d ws (day, has_end) =
    (record { written = 0; day = day; same_nets = refl }, has_end)

-- From a loop that begins as the start leaves it, with no address in two of its subnets: whatever packets of
-- whatever version and content, clients and SIGHUPs with whatever file the process gets through, a running process
-- has sound counters of the same subnets, only tables with the right totals given to `ExportRecord` at midnight, and a whitelist with a free
-- cell. A process that SIGINT or SIGTERM ended was such a process until this step, and by it wrote one file, that
-- of the counters that it had then. A process that died was such a process until its last step, and only `accept` failing for a client,
-- with no packet active, or SIGHUP with a configuration that cannot be read, led there.
pub Reach-IsAlive :
    (w : World) (d : Daemon) (ws : List ℕ) (q : Process)
    → IsReady (runs d ws)
    → AreApart (runs d ws)
    → Reach w (running d ws) q
    → IsAlive w (running d ws) d.state.flows.nets q
Reach-IsAlive w d ws q ready apart reach =
    IsAlive-Reach w (running d ws) d.state.flows.nets apart reach (IsReady-IsAlive w d ws ready)

-- In every running process that a loop leads to that begins as the start leaves it, with no address in two of its
-- subnets, a client whose `showAll` is no text, or not the text at the address that the first eight bytes of the
-- configured key form, may ask whatever it likes: if an answer is sent, no list in it names an address of the
-- entries before the first free cell of the whitelist that is in force then, and about such an address it holds
-- zeros only.
pub Reach-IsDiscreet :
    (w : World) (d d' : Daemon) (ws ws' : List ℕ) (server : Server) (get : Field → Option Json)
    → IsReady (runs d ws)
    → AreApart (runs d ws)
    → Reach w (running d ws) (running d' ws')
    → server.whitelist ≡ ws'
    → IsNoKey server (get Field.field_show_all)
    → Whenever (parse_cmd server (Request.object get) d'.state.flows) (IsDiscreet ws')
Reach-IsDiscreet w d d' ws ws' server get ready apart reach same no_key =
    let alive = Reach-IsAlive w d ws (running d' ws') ready apart reach in
    rw⁻¹ same (parse_cmd-IsDiscreet server (rw same alive.1) get no_key d'.state.flows)
