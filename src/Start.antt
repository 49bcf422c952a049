-- ===== src/Start.antt =====
-- src/flowstatd.c, `main` up to its loop: from the configuration to the state that the loop begins with.
pub mod Sorted
pub mod Sound
use mathlib.Core.List.{Permᴰ}
use flowstatd.Base.{
  ℕ, zero, suc, ◌≤◌, ◌==◌, if◌then◌else◌, Bool, true, false, List, [], ◌∷◌, length, replicate,
  Option, none, some, Run, done, ◌>>=◌,
}
use flowstatd.Subnet.{Subnet}
use flowstatd.Clock.{Tm}
use flowstatd.Flow.{zero_flow, FlowState}
use flowstatd.V9.Tables.{init_tables}
use flowstatd.Daemon.{Daemon}
use flowstatd.Records.{File, Memory, Imported, import_record}
use flowstatd.Whitelist.{load_whitelist, Loaded}
use flowstatd.Whitelist
use flowstatd.Config.Strings.{Text}
use flowstatd.Config.{Document, System, Settings, no_net, load_config}

-- What `qsort` promises of the subnets: the same ones, in some order.
pub record SubnetSort : Type 0 where
  pub qsort : List Subnet → List Subnet
  pub qsort-perm : (nets : List Subnet) → Permᴰ (qsort nets) nets

-- What the start finds: the configuration as `LoadConfig` and as `LoadWhitelist` read it, the time, the
-- file of today's counters, whether `malloc` has room for a table, and whether the sockets, the
-- multiplexer and `daemon` can be set up.
pub record Boot : Type 0 where
  pub document : Document
  pub whitelist : Whitelist.Config Text
  pub now : Tm
  pub file : File
  pub memory : Memory
  pub has_table : ℕ → Bool
  pub opens : Settings → Bool

-- `return -1`, `exit`, or the loop with its state and the whitelist.
pub data Started : Type 0 where
  quits : Started
  dies : Started
  runs : Daemon → List ℕ → Started

-- The settings before `LoadConfig`.
abbrev pub no_settings : Settings
no_settings = record {
  save_prefix = [];
  my_net = no_net;
  nets = [];
  sum_ip_count = 0;
  secret_key = [];
  bind_ip = 0;
  netflow_port = 0;
  command_port = 0;
  daemon_mode = 0;
}

-- The sockets and the handlers, once the counters are there.
unfoldable pub open_loop : Boot → Settings → List ℕ → FlowState → Started
open_loop boot st whitelist flows =
    if boot.opens st
    then runs
        (record {
          state = record { tables = init_tables; flows = flows };
          pre_hour = boot.now.tm_hour;
          exported = [];
        })
        whitelist
    else dies

-- The table, the order of the subnets, the time, and the counters of the day so far.
unfoldable pub start_table : SubnetSort → Boot → Settings → List ℕ → Started
start_table q boot st whitelist =
    if boot.has_table st.sum_ip_count
    then (elim (import_record boot.memory boot.file (record {
      nets = q.qsort st.nets;
      my_net = st.my_net;
      localtm = boot.now;
      ip_table = replicate st.sum_ip_count zero_flow;
    })) [ Imported.exits ↦ dies | Imported.returns _ flows ↦ open_loop boot st whitelist flows ])
    else quits

-- Behind `LoadConfig`.
unfoldable pub start_with : System → SubnetSort → Boot → Option Settings → Run Started
start_with system q boot none = done dies
start_with system q boot (some st) =
    if length st.nets == 0
    then done quits
    else (load_whitelist system.inet_addr st.nets boot.whitelist (replicate 50 0) >>= λ w. elim w [
      | Loaded.exits ↦ done dies
      | Loaded.returns _ whitelist ↦ done (start_table q boot st whitelist)
    ])

-- `main`, up to the loop.
unfoldable pub start : System → SubnetSort → Boot → Run Started
start system q boot = load_config system boot.document no_settings >>= start_with system q boot
