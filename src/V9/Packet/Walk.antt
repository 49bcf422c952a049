-- ===== src/V9/Packet/Walk.antt =====
-- The walk over the flowsets of a packet.
use native.Mathlib.Nat.{add-zero}
use flowstatd.Base.{
  ℕ, zero, suc, ◌+◌, ◌≤◌, ◌<◌, ◌≡◌, refl, arith, ltb, ◌==◌, List, done, out_of_fuel, true, false,
}
use flowstatd.Base.Words.{read_be16}
use flowstatd.Clock.{Platform}
use flowstatd.V9.Packet.{V9State, handle_flowset, insert_flow_entry_v9}

-- A flowset of length 0 with an id from 1 to 255 makes the walk stay where it is for ever: whatever
-- else the packet holds, no amount of fuel is enough.
pub insert_flow_entry_v9_stuck :
    (fuel inner : ℕ) (platform : Platform) (stale : ℕ → ℕ) (buf : List ℕ)
    (packet_len source_ip p id : ℕ) (st : V9State)
    → p < packet_len
    → read_be16 buf p ≡ done id
    → read_be16 buf (p + 2) ≡ done 0
    → 0 < id
    → id ≤ 255
    → insert_flow_entry_v9 fuel inner platform stale buf packet_len source_ip p st ≡ out_of_fuel
unfolding insert_flow_entry_v9 handle_flowset
insert_flow_entry_v9_stuck zero inner platform stale buf packet_len source_ip p id st h e_id e_len l
      k =
    refl
insert_flow_entry_v9_stuck (suc fuel) inner platform stale buf packet_len source_ip p id st h e_id
      e_len l k =
    let inside : ltb p packet_len ≡ true = ground arith in
    let not_template : (id == 0) ≡ false = ground arith in
    let not_data : ltb 255 id ≡ false = ground arith in
    rw (inside, insert_flow_entry_v9, e_id, e_len, not_template, not_data)
      (rw (add-zero p) (
        insert_flow_entry_v9_stuck fuel inner platform stale buf packet_len source_ip p id st h e_id
          e_len l k))
