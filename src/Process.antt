-- ===== src/Process.antt =====
-- src/flowstatd.c and src/socket.c: what happens to the process between two iterations of its loop, and the handlers
-- of the signals. A signal arrives between two iterations.
pub mod Kept
pub mod Fatal
pub mod Alive
pub mod Durable
pub mod Generations
use flowstatd.Base.{ℕ, ◌≡◌, List, [], ◌∷◌, Option, none, some, done}
use flowstatd.Base.Reads.{IsBytes}
use flowstatd.Flow.{FlowState}
use flowstatd.Daemon.{Machine, Datagram, Daemon}
use flowstatd.Select.{Multiplexer}
use flowstatd.Records.{export_record}
use flowstatd.Whitelist
use flowstatd.Config.Strings.{Text}
use flowstatd.Update
use flowstatd.Update.{update}
use flowstatd.Loop
use flowstatd.Loop.{Sockets, Offer, Act, serve}

-- What a process gives up or writes at its end.
pub data Release : Type 0 where
  closes : ℕ → Release
  frees_multiplexer : Release
  writes_today : List ℕ → Release
  frees_table : Release

-- `Exits`, the handler of SIGINT and SIGTERM.
unfoldable pub exits : Sockets → ℕ → FlowState → List Release
exits s pad st =
    closes s.netflow_fd
    ∷ closes s.command_fd
    ∷ frees_multiplexer
    ∷ writes_today (export_record pad st)
    ∷ frees_table
    ∷ []

-- `SockExit`, the handler of SIGALRM in a forked process, behind its answer.
unfoldable pub sock_exit : Sockets → List Release
sock_exit s = closes s.netflow_fd ∷ closes s.command_fd ∷ frees_multiplexer ∷ frees_table ∷ []

-- The loop with its state and the whitelist, or what the process did at its end, or its end by `exit`.
pub data Process : Type 0 where
  running : Daemon → List ℕ → Process
  ended : List Release → Process
  died : Process

-- What stays the same.
pub record World : Type 0 where
  pub machine : Machine
  pub sockets : Sockets
  pub inet_addr : Text → ℕ
  pub pad : ℕ

-- The buffer of a datagram holds bytes.
abbrev pub IsReal : Option Datagram → Type 0
IsReal none = Unit
IsReal (some p) = IsBytes p.buf

-- An iteration of the loop, whatever is active and whatever the calls give, or a signal.
pub data Step (w : World) : Process → Process → Type 0 where
  iteration :
      (m : Multiplexer) (offer : Offer) (act : Act) (d d' : Daemon) (ws : List ℕ)
      → IsReal offer.datagram
      → serve w.machine w.sockets m offer d ≡ done (Loop.goes_on act d')
      → Step w (running d ws) (running d' ws)
  accept_fails :
      (m : Multiplexer) (offer : Offer) (d : Daemon) (ws : List ℕ)
      → serve w.machine w.sockets m offer d ≡ done Loop.exits
      → Step w (running d ws) died
  hup :
      (config : Whitelist.Config Text) (d : Daemon) (ws ws' file : List ℕ)
      → update w.inet_addr config w.pad d.state.flows ws ≡ done (Update.goes_on ws' file)
      → Step w (running d ws) (running d ws')
  hup_ends :
      (config : Whitelist.Config Text) (d : Daemon) (ws : List ℕ)
      → update w.inet_addr config w.pad d.state.flows ws ≡ done Update.ends
      → Step w (running d ws) died
  term :
      (d : Daemon) (ws : List ℕ)
      → Step w (running d ws) (ended (exits w.sockets w.pad d.state.flows))

pub data Reach (w : World) (p : Process) : Process → Type 0 where
  here : Reach w p p
  next : {q r : Process} → Reach w p q → Step w q r → Reach w p r
