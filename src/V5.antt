-- ===== src/V5.antt =====
-- src/netflow_handler_v5.c: the check of a NetFlow v5 packet, and the loop over its records.
pub mod Packet
pub mod Records
pub mod Skip
pub mod Kept
use flowstatd.Base.{
  ℕ, zero, suc, ◌+◌, ◌-◌, ◌/◌, ◌%◌, ◌==◌, if◌then◌else◌, List, Run, done, ◌>>=◌, ℤ, pos, negsuc,
  signed32,
}
use flowstatd.Base.Words.{word32, word64, read_be16, read_be32, read_addr}
use flowstatd.Clock.{Platform, NfTimeInfo}
use flowstatd.Flow.{FlowState, insert_nf_info}

-- `sizeof(struct NF_V5_header)` and `sizeof(struct NF_V5_record)`.
abbrev pub header_size : ℕ
header_size = 24

abbrev pub record_size : ℕ
record_size = 48

-- `ntohs(header->count) != recCount`
unfoldable pub check_count : ℕ → ℤ → ℤ
check_count count (pos n) = if count == n then pos n else pos 0
check_count count (negsuc n) = pos 0

-- `IsValidPacket`. The sizes have type `size_t`, so the difference wraps at 64 bits, and the count is
-- cut down to an `int`. `packet_len` is not negative.
unfoldable pub is_valid_packet : List ℕ → ℕ → Run ℤ
unfolding check_count
is_valid_packet buf packet_len =
    let size = (packet_len + word64 - header_size) % word64 in
    if size % record_size == 0
    then (do
      count ← read_be16 buf 2
      done (check_count count (signed32 (size / record_size % word32))))
    else done (pos 0)

-- One round of `InsertFlowEntry`, with `record` at `ptr`.
unfoldable pub insert_record : Platform → List ℕ → ℕ → FlowState → Run FlowState
insert_record platform buf ptr st = do
  sys_uptime ← read_be32 buf 4
  unix_secs ← read_be32 buf 8
  unix_nsecs ← read_be32 buf 12
  first ← read_be32 buf (ptr + 24)
  octets ← read_be32 buf (ptr + 20)
  src ← read_addr buf ptr
  dst ← read_addr buf (ptr + 4)
  insert_nf_info platform src dst octets
      (record {
        sys_uptime = sys_uptime;
        unix_secs = unix_secs;
        unix_nsecs = unix_nsecs;
        first_packet_time = first;
      })
      st

-- The loop of `InsertFlowEntry`, for the rounds left. `ptr` moves before the record is read.
unfoldable pub insert_records : Platform → List ℕ → ℕ → ℕ → FlowState → Run FlowState
insert_records platform buf zero ptr st = done st
insert_records platform buf (suc rounds) ptr st =
    insert_record platform buf (ptr + record_size) st
    >>= insert_records platform buf rounds (ptr + record_size)

-- `InsertFlowEntry`, called for a positive count.
unfoldable pub insert_flow_entry : Platform → List ℕ → ℤ → FlowState → Run FlowState
insert_flow_entry platform buf (pos n) st = insert_records platform buf n header_size st
insert_flow_entry platform buf (negsuc n) st = done st

-- `AddFlowDataV5Impl`
unfoldable pub add_flow_data_v5 : Platform → List ℕ → ℕ → FlowState → Run FlowState
add_flow_data_v5 platform buf packet_len st = do
  rec_count ← is_valid_packet buf packet_len
  insert_flow_entry platform buf rec_count st
