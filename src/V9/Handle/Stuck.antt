-- ===== src/V9/Handle/Stuck.antt =====
-- A data flowset that the daemon never gets past.
use flowstatd.Base.{
  ℕ, zero, suc, ◌+◌, ◌≤◌, ◌<◌, ◌≡◌, refl, arith, ltb, List, length, done, out_of_fuel, true,
}
use flowstatd.Base.Reads.{IsBytes, read_be32_some}
use flowstatd.Clock.{Platform}
use flowstatd.Flow.{FlowState}
use flowstatd.V9.Tables.{Template}
use flowstatd.V9.Handle.{decode_fields, is_complete, insert_decoded, handle_record, handle_records}

handle_record_empty :
    (platform : Platform) (stale : ℕ → ℕ) (buf : List ℕ) (begin : ℕ) (t : Template) (st : FlowState)
    → IsBytes buf
    → 12 ≤ length buf
    → t.field_count ≡ 0
    → handle_record platform stale buf begin t 0 st ≡ done (0, st)
unfolding handle_record decode_fields insert_decoded is_complete
handle_record_empty platform stale buf begin t st bytes h none_left =
    let (a, ea, _) = read_be32_some buf bytes 4 (omega arith) in
    let (b, eb, _) = read_be32_some buf bytes 8 (omega arith) in
    rw (ea, eb, none_left, decode_fields)

-- A template with no fields never moves the loop on: once a data flowset uses one and claims a length,
-- the loop over its records runs for ever, and no amount of fuel is enough.
pub handle_records_stuck :
    (fuel : ℕ) (platform : Platform) (stale : ℕ → ℕ) (buf : List ℕ) (begin data_len : ℕ)
    (t : Template) (st : FlowState)
    → IsBytes buf
    → 12 ≤ length buf
    → t.field_count ≡ 0
    → t.record_length ≡ 0
    → 0 < data_len
    → handle_records fuel platform stale buf begin data_len t 0 st ≡ out_of_fuel
unfolding handle_records
handle_records_stuck zero platform stale buf begin data_len t st bytes h none_left e positive = refl
handle_records_stuck (suc fuel) platform stale buf begin data_len t st bytes h none_left e
      positive =
    let go : ltb (0 + t.record_length) data_len ≡ true = ground arith in
    rw (go, handle_records, handle_record_empty platform stale buf begin t st bytes h none_left)
      (handle_records_stuck fuel platform stale buf begin data_len t st bytes h none_left e
        positive)
