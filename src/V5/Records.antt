-- ===== src/V5/Records.antt =====
-- The records that a v5 packet's loop reads.
use flowstatd.Base.{
  ℕ, zero, suc, ◌+◌, ◌*◌, ◌≤◌, ◌<◌, ◌≡◌, ◌∙◌, ◌==◌, if◌then◌else◌, arith, List, length, done,
  undefined, Returns, Returns-done, >>=-Returns,
}
use flowstatd.Base.Words.{word16, read_be16}
use flowstatd.Base.Reads.{IsBytes, read_be16_some, read_be32_some, read_addr_some, read_be32_past}
use flowstatd.Clock.{Platform}
use flowstatd.Flow.{FlowState}
use flowstatd.Flow.Shape.{IsSound, insert_nf_info-IsSound}
use flowstatd.V5.{insert_record, insert_records, insert_flow_entry, add_flow_data_v5}
use flowstatd.V5.Packet.{is_valid_packet_lem}

module _ (platform : Platform) (buf : List ℕ) (bytes : IsBytes buf) where
  -- A record inside the buffer is counted.
  pub insert_record-IsSound :
      (ptr : ℕ) (st : FlowState)
      → 24 ≤ length buf
      → ptr + 48 ≤ length buf
      → IsSound st
      → Returns (insert_record platform buf ptr st) IsSound
  unfolding insert_record
  insert_record-IsSound ptr st h k sound =
      let (a, ea, _) = read_be32_some buf bytes 4 (omega arith) in
      let (b, eb, _) = read_be32_some buf bytes 8 (omega arith) in
      let (c, ec, _) = read_be32_some buf bytes 12 (omega arith) in
      let (d, ed, _) = read_be32_some buf bytes (ptr + 24) (omega arith) in
      let (e, ee, _) = read_be32_some buf bytes (ptr + 20) (omega arith) in
      let (f, ef, lf) = read_addr_some buf bytes ptr (omega arith) in
      let (g, eg, lg) = read_addr_some buf bytes (ptr + 4) (omega arith) in
      rw (ea, eb, ec, ed, ee, ef, eg) (insert_nf_info-IsSound platform f g e _ st sound lf lg)

  pub insert_records-IsSound :
      (rounds ptr : ℕ) (st : FlowState)
      → 24 ≤ length buf
      → ptr + 48 * suc rounds ≤ length buf
      → IsSound st
      → Returns (insert_records platform buf rounds ptr st) IsSound
  unfolding insert_records
  insert_records-IsSound zero ptr st h k sound = sound
  insert_records-IsSound (suc rounds) ptr st h k sound =
      >>=-Returns (insert_record platform buf (ptr + 48) st) _ IsSound IsSound
        (insert_record-IsSound (ptr + 48) st h (omega arith) sound)
        (λ st' sound'. insert_records-IsSound rounds (ptr + 48) st' h (omega arith) sound')

  -- A record past the end of the buffer.
  insert_record_past :
      (ptr : ℕ) (st : FlowState)
      → 24 ≤ length buf
      → length buf ≤ ptr + 24
      → insert_record platform buf ptr st ≡ undefined
  unfolding insert_record
  insert_record_past ptr st h k =
      let (a, ea, _) = read_be32_some buf bytes 4 (omega arith) in
      let (b, eb, _) = read_be32_some buf bytes 8 (omega arith) in
      let (c, ec, _) = read_be32_some buf bytes 12 (omega arith) in
      rw (ea, eb, ec, read_be32_past buf (ptr + 24) k)

  insert_records_past :
      (rounds ptr : ℕ) (st : FlowState)
      → 24 ≤ length buf
      → ptr + 48 * suc rounds ≤ length buf
      → length buf ≤ ptr + 48 * suc rounds + 24
      → IsSound st
      → insert_records platform buf (suc rounds) ptr st ≡ undefined
  unfolding insert_records
  insert_records_past zero ptr st h k past sound =
      rw (insert_record_past (ptr + 48) st h (omega arith))
  insert_records_past (suc rounds) ptr st h k past sound =
      let (st', e, sound') =
        Returns-done (insert_record platform buf (ptr + 48) st) IsSound
          (insert_record-IsSound (ptr + 48) st h (omega arith) sound) in
      rw e (insert_records_past rounds (ptr + 48) st' h (omega arith) (omega arith) sound')

-- What `AddFlowDataV5Impl` does with a packet whose header says `count`.
add_flow_data_v5-eq :
    (platform : Platform) (buf : List ℕ) (packet_len count : ℕ) (st : FlowState)
    → packet_len ≤ 8192
    → read_be16 buf 2 ≡ done count
    → count < word16
    → add_flow_data_v5 platform buf packet_len st
      ≡ insert_records platform buf (if packet_len == 24 + 48 * count then count else 0) 24 st
unfolding add_flow_data_v5 insert_flow_entry
add_flow_data_v5-eq platform buf packet_len count st h e c =
    rw (is_valid_packet_lem buf packet_len count h e c)

-- A v5 packet in the 8192-byte buffer, of at most a header and 169 records, is handled with no
-- access outside an array, and keeps the invariant of the counters.
pub add_flow_data_v5-IsSound :
    (platform : Platform) (buf : List ℕ) (packet_len : ℕ) (st : FlowState)
    → IsBytes buf
    → length buf ≡ 8192
    → packet_len ≤ 24 + 48 * 169
    → IsSound st
    → Returns (add_flow_data_v5 platform buf packet_len st) IsSound
add_flow_data_v5-IsSound platform buf packet_len st bytes size h sound =
    let (count, e, c) = read_be16_some buf bytes 2 (omega arith) in
    rw (add_flow_data_v5-eq platform buf packet_len count st (omega arith) e c) (
      insert_records-IsSound platform buf bytes _ 24 st (omega arith)
        (accepted_le packet_len count (length buf) size h) sound)
  where
    accepted_le :
        (packet_len count size : ℕ)
        → size ≡ 8192
        → packet_len ≤ 24 + 48 * 169
        → 24 + 48 * suc (if packet_len == 24 + 48 * count then count else 0) ≤ size
    accepted_le packet_len count size e h = ground arith

-- A v5 packet of 170 records, which fits the buffer, makes the loop read past the buffer's end.
pub add_flow_data_v5_overrun :
    (platform : Platform) (buf : List ℕ) (st : FlowState)
    → IsBytes buf
    → length buf ≡ 8192
    → read_be16 buf 2 ≡ done 170
    → IsSound st
    → add_flow_data_v5 platform buf (24 + 48 * 170) st ≡ undefined
add_flow_data_v5_overrun platform buf st bytes size e sound =
    add_flow_data_v5-eq platform buf (24 + 48 * 170) 170 st (omega arith) e (omega arith)
    ∙ insert_records_past platform buf bytes 169 24 st (omega arith) (omega arith) (omega arith)
        sound
