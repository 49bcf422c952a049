-- ===== src/V9/Packet.antt =====
-- `_InsertFlowEntry` and `AddFlowDataV9Impl`: the flowsets of a packet.
pub mod Walk
pub mod Ends
pub mod Kept
use flowstatd.Base.{
  ℕ, zero, suc, ◌+◌, ◌-◌, ltb, ◌==◌, if◌then◌else◌, List, Run, done, out_of_fuel, ◌>>=◌, true,
  false,
}
use flowstatd.Base.Words.{read_be16, read_be32}
use flowstatd.Clock.{Platform}
use flowstatd.Flow.{FlowState}
use flowstatd.V9.Tables.{Tables}
use flowstatd.V9.Save.{save_templates}
use flowstatd.V9.Handle.{handle_data}

pub record V9State : Type 0 where
  pub tables : Tables
  pub flows : FlowState

-- The flowset at `p`, by its id: templates, options templates and reserved ids, or data.
unfoldable pub handle_flowset :
    ℕ → Platform → (ℕ → ℕ) → List ℕ → ℕ → ℕ → ℕ → ℕ → V9State → Run V9State
handle_flowset fuel platform stale buf source_ip p id flow_set_length st =
    if id == 0
    then (do
      source_id ← read_be32 buf 16
      tables ← save_templates fuel buf source_ip source_id p (flow_set_length - 4) 0 st.tables
      done (record st { tables = tables }))
    else if ltb 255 id
    then (do
      source_id ← read_be32 buf 16
      flows ← handle_data fuel platform stale buf source_ip source_id p st.tables st.flows
      done (record st { flows = flows }))
    else done st

-- The walk over the flowsets from `p`; `inner` is the fuel of the loops inside a flowset.
unfoldable pub insert_flow_entry_v9 :
    ℕ → ℕ → Platform → (ℕ → ℕ) → List ℕ → ℕ → ℕ → ℕ → V9State → Run V9State
insert_flow_entry_v9 zero inner platform stale buf packet_len source_ip p st = out_of_fuel
insert_flow_entry_v9 (suc fuel) inner platform stale buf packet_len source_ip p st =
    elim (ltb p packet_len) [
      | false ↦ done st
      | true ↦ read_be16 buf p >>= λ id. read_be16 buf (p + 2) >>= λ flow_set_length.
          handle_flowset inner platform stale buf source_ip p id flow_set_length st
          >>= insert_flow_entry_v9 fuel inner platform stale buf packet_len source_ip
              (p + flow_set_length)
    ]

-- `AddFlowDataV9Impl`; the header has 20 bytes.
unfoldable pub add_flow_data_v9 :
    ℕ → ℕ → Platform → (ℕ → ℕ) → List ℕ → ℕ → ℕ → V9State → Run V9State
add_flow_data_v9 fuel inner platform stale buf packet_len source_ip st =
    insert_flow_entry_v9 fuel inner platform stale buf packet_len source_ip 20 st
