-- ===== src/V9/Handle.antt =====
-- `_HandleData`: the records of a data flowset, read by the template of its source and id.
pub mod Loop
pub mod Kept
pub mod Stuck
pub mod Recall
use flowstatd.Base.{
  ℕ, zero, suc, ◌+◌, ltb, ◌==◌, Bool, not, ◌&&◌, if◌then◌else◌, List, get_elem?, Run, done,
  out_of_fuel, ◌>>=◌, load, true, false,
}
use flowstatd.Base.Words.{read_be16, read_be32, read_addr}
use flowstatd.Clock.{Platform}
use flowstatd.Flow.{FlowState, insert_nf_info}
use flowstatd.V9.Tables.{
  FlowsetRecord, Template, Tables, template_type_none, hashing_template_id, hashing_source_info,
  template_index,
}

-- The locals of the loop over the fields of one record.
pub record Decoded : Type 0 where
  pub src_addr : ℕ
  pub dst_addr : ℕ
  pub flow_bytes : ℕ
  pub first_packet_time : ℕ
  pub curr_pos : ℕ

-- The cases of the `switch` on the field types that set a variable.
pub data FieldKind : Type 0 where
  ipv4_src_addr : FieldKind
  ipv4_dst_addr : FieldKind
  in_bytes : FieldKind
  first_switched : FieldKind
  other : FieldKind

unfoldable pub field_kind : ℕ → FieldKind
field_kind t =
    if t == 8
    then ipv4_src_addr
    else if t == 12
    then ipv4_dst_addr
    else if t == 1
    then in_bytes
    else if t == 22
    then first_switched
    else other

-- `NF_V9_FIELD_TYPE_IN_BYTES`: four or two bytes; other lengths are logged.
unfoldable pub read_in_bytes : List ℕ → ℕ → ℕ → ℕ → Run ℕ
read_in_bytes buf p field_length flow_bytes =
    if field_length == 4
    then read_be32 buf p
    else if field_length == 2
    then read_be16 buf p
    else done flow_bytes

unfoldable pub decode_kind : FieldKind → List ℕ → ℕ → ℕ → Decoded → Run Decoded
decode_kind ipv4_src_addr buf p field_length d =
    read_addr buf p >>= λ v. done (record d { src_addr = v })
decode_kind ipv4_dst_addr buf p field_length d =
    read_addr buf p >>= λ v. done (record d { dst_addr = v })
decode_kind in_bytes buf p field_length d =
    read_in_bytes buf p field_length d.flow_bytes >>= λ v. done (record d { flow_bytes = v })
decode_kind first_switched buf p field_length d =
    read_be32 buf p >>= λ v. done (record d { first_packet_time = v })
decode_kind other buf p field_length d = done d

-- One round of the loop over the fields.
unfoldable pub decode_field : List ℕ → ℕ → FlowsetRecord → Decoded → Run Decoded
decode_field buf data_begin f d = do
  d' ← decode_kind (field_kind f.field_type) buf (data_begin + d.curr_pos) f.field_length d
  done (record d' { curr_pos = d.curr_pos + f.field_length })

-- The loop, for the rounds left, from `fields[curr]`.
unfoldable pub decode_fields : List ℕ → ℕ → List FlowsetRecord → ℕ → ℕ → Decoded → Run Decoded
decode_fields buf data_begin fields zero curr d = done d
decode_fields buf data_begin fields (suc rounds) curr d = do
  f ← load (get_elem? fields curr)
  d' ← decode_field buf data_begin f d
  decode_fields buf data_begin fields rounds (curr + 1) d'

-- `srcAddr != 0 && dstAddr != 0 && flowBytes != 0 && nfTimeInfo.FirstPacketTime != 0`
unfoldable pub is_complete : Decoded → Bool
is_complete d =
    not (d.src_addr == 0)
    && not (d.dst_addr == 0)
    && not (d.flow_bytes == 0)
    && not (d.first_packet_time == 0)

unfoldable pub insert_decoded : Platform → ℕ → ℕ → Decoded → FlowState → Run FlowState
insert_decoded platform sys_uptime unix_secs d st =
    if is_complete d
    then insert_nf_info platform d.src_addr d.dst_addr d.flow_bytes
        (record {
          sys_uptime = sys_uptime;
          unix_secs = unix_secs;
          unix_nsecs = 0;
          first_packet_time = d.first_packet_time;
        })
        st
    else done st

-- The body of the loop over the records, from `curr_pos`: the new position and state. The C variable
-- `FirstPacketTime` is not initialised; `stale` is what it holds at the start of the record there.
unfoldable pub handle_record :
    Platform → (ℕ → ℕ) → List ℕ → ℕ → Template → ℕ → FlowState → Run (ℕ × FlowState)
handle_record platform stale buf data_begin t curr_pos st = do
  sys_uptime ← read_be32 buf 4
  unix_secs ← read_be32 buf 8
  d ← decode_fields buf data_begin t.fields t.field_count 0 (record {
    src_addr = 0;
    dst_addr = 0;
    flow_bytes = 0;
    first_packet_time = stale curr_pos;
    curr_pos = curr_pos;
  })
  st' ← insert_decoded platform sys_uptime unix_secs d st
  done (d.curr_pos, st')

-- The loop over the records.
unfoldable pub handle_records :
    ℕ → Platform → (ℕ → ℕ) → List ℕ → ℕ → ℕ → Template → ℕ → FlowState → Run FlowState
handle_records zero platform stale buf data_begin data_len t curr_pos st = out_of_fuel
handle_records (suc fuel) platform stale buf data_begin data_len t curr_pos st =
    elim (ltb (curr_pos + t.record_length) data_len) [
      | false ↦ done st
      | true ↦ handle_record platform stale buf data_begin t curr_pos st >>= λ r.
          handle_records fuel platform stale buf data_begin data_len t r.0 r.1
    ]

-- An entry that was never saved is logged.
unfoldable pub handle_template :
    ℕ → Platform → (ℕ → ℕ) → List ℕ → ℕ → ℕ → Template → FlowState → Run FlowState
handle_template fuel platform stale buf data_begin data_len t st =
    if t.template_type == template_type_none
    then done st
    else handle_records fuel platform stale buf data_begin data_len t 0 st

-- `_HandleData`, with `flowSetHeader` at `p`.
unfoldable pub handle_data :
    ℕ → Platform → (ℕ → ℕ) → List ℕ → ℕ → ℕ → ℕ → Tables → FlowState → Run FlowState
handle_data fuel platform stale buf source_ip source_id p tables st = do
  data_len ← read_be16 buf (p + 2)
  flow_set_id ← read_be16 buf p
  let source_offset = hashing_source_info source_ip source_id
  template_id ← template_index source_offset (hashing_template_id flow_set_id)
  t ← load (get_elem? tables.template_table template_id)
  handle_template fuel platform stale buf (p + 4) data_len t st
