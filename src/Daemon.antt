-- ===== src/Daemon.antt =====
-- src/netflow.c, `AddFlowData`, and src/flowstatd.c, `main`: a packet that the loop receives.
pub mod Sound
pub mod Kept
pub mod Ends
use flowstatd.Base.{
  ℕ, zero, suc, ◌==◌, ◌&&◌, if◌then◌else◌, true, false, List, [], ◌∷◌, length, replicate, map, Run,
  done, ◌>>=◌,
}
use flowstatd.Base.Words.{read_be16}
use flowstatd.Clock.{Tm, Platform}
use flowstatd.Flow.{HostFlow, zero_flow, FlowState}
use flowstatd.V5.{add_flow_data_v5}
use flowstatd.V9.Packet.{V9State, add_flow_data_v9}

-- The two loops of the v9 handler have fuel; `stale` is what its uninitialised variable holds.
pub record Machine : Type 0 where
  pub fuel : ℕ
  pub inner : ℕ
  pub platform : Platform
  pub stale : ℕ → ℕ

-- A packet in `buf`: the bytes of the buffer, `n`, the sender, and the time when it was received.
pub record Datagram : Type 0 where
  pub buf : List ℕ
  pub n : ℕ
  pub source_ip : ℕ
  pub now : Tm

-- `AddFlowData`
unfoldable pub add_flow_data : Machine → List ℕ → ℕ → ℕ → V9State → Run V9State
add_flow_data machine buf packet_len source_ip st = do
  version ← read_be16 buf 0
  if version == 9
      then add_flow_data_v9 machine.fuel machine.inner machine.platform machine.stale buf packet_len
          source_ip st
      else if version == 5
      then (add_flow_data_v5 machine.platform buf packet_len st.flows >>= λ flows.
          done (record st { flows = flows }))
      else done st

-- What `main` keeps: the handlers' state with the global variables, `preHour`, and the tables that
-- `ExportRecord(YESTERDAY)` wrote, the last one first.
pub record Daemon : Type 0 where
  pub state : V9State
  pub pre_hour : ℕ
  pub exported : List (List HostFlow)

-- `localtime_r(&now, &localtm)`
unfoldable pub set_time : Tm → V9State → V9State
set_time now st = record st { flows = record st.flows { localtm = now } }

-- `memset(ipTable, 0, …)`
unfoldable pub clear_table : V9State → V9State
clear_table st = record st {
  flows = record st.flows { ip_table = replicate (length st.flows.ip_table) zero_flow };
}

-- From the time to `preHour`.
unfoldable pub turn_hour : Tm → Daemon → Daemon
unfolding set_time clear_table
turn_hour now d =
    if d.pre_hour == 23 && now.tm_hour == 0
    then record {
      state = clear_table (set_time now d.state);
      pre_hour = now.tm_hour;
      exported = d.state.flows.ip_table ∷ d.exported;
    }
    else record { state = set_time now d.state; pre_hour = now.tm_hour; exported = d.exported }

-- One packet.
unfoldable pub receive : Machine → Datagram → Daemon → Run Daemon
unfolding turn_hour
receive machine p d =
    add_flow_data machine p.buf p.n p.source_ip (turn_hour p.now d).state >>= λ st.
    done (record (turn_hour p.now d) { state = st })

-- The loop of `main` over the packets that arrive.
unfoldable pub receive_all : Machine → List Datagram → Daemon → Run Daemon
receive_all machine [] d = done d
receive_all machine (p ∷ ps) d = receive machine p d >>= receive_all machine ps
