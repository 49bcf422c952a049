-- ===== src/V9/Handle/Kept.antt =====
-- What any data flowset keeps, whatever its template, as far as its records are read.
use flowstatd.Base.{
  ℕ, zero, suc, ◌+◌, ◌<◌, arith, ltb, ◌==◌, Bool-cases, inl, inr, List, get_elem?, load, Whenever,
  Whenever-Unit, >>=-Whenever,
}
use flowstatd.Base.Words.{word32, read_be16, read_be32, read_addr}
use flowstatd.Base.Reads.{IsBytes, read_addr-Whenever}
use flowstatd.Clock.{Platform}
use flowstatd.Flow.{FlowState}
use flowstatd.Flow.Kept.{Keeps}
use flowstatd.V9.Tables.{
  FlowsetRecord, Template, Tables, template_type_none, hashing_template_id, hashing_source_info,
  template_index,
}
use flowstatd.V9.Handle.{
  Decoded, FieldKind, ipv4_src_addr, ipv4_dst_addr, in_bytes, first_switched, other, field_kind,
  read_in_bytes, decode_kind, decode_field, decode_fields, is_complete, insert_decoded,
  handle_record, handle_records, handle_template, handle_data,
}

-- The addresses are words.
abbrev IsWords : Decoded → Type 0
IsWords d = (d.src_addr < word32) × (d.dst_addr < word32)

module _ (buf : List ℕ) (bytes : IsBytes buf) where
  decode_kind-IsWords :
      (k : FieldKind) (p n : ℕ) (d : Decoded)
      → IsWords d
      → Whenever (decode_kind k buf p n d) IsWords
  unfolding decode_kind
  decode_kind-IsWords ipv4_src_addr p n d w =
      >>=-Whenever (read_addr buf p) _ (λ v. v < word32) IsWords (read_addr-Whenever buf bytes p)
        λ v lt. (lt, w.1)
  decode_kind-IsWords ipv4_dst_addr p n d w =
      >>=-Whenever (read_addr buf p) _ (λ v. v < word32) IsWords (read_addr-Whenever buf bytes p)
        λ v lt. (w.0, lt)
  decode_kind-IsWords in_bytes p n d w =
      >>=-Whenever (read_in_bytes buf p n d.flow_bytes) _ (λ v. Unit {0}) IsWords
        (Whenever-Unit (read_in_bytes buf p n d.flow_bytes)) λ v u. w
  decode_kind-IsWords first_switched p n d w =
      >>=-Whenever (read_be32 buf p) _ (λ v. Unit {0}) IsWords (Whenever-Unit (read_be32 buf p))
        λ v u. w
  decode_kind-IsWords other p n d w = w

  decode_fields-IsWords :
      (begin : ℕ) (fields : List FlowsetRecord) (n curr : ℕ) (d : Decoded)
      → IsWords d
      → Whenever (decode_fields buf begin fields n curr d) IsWords
  unfolding decode_fields decode_field
  decode_fields-IsWords begin fields zero curr d w = w
  decode_fields-IsWords begin fields (suc n) curr d w =
      >>=-Whenever (load (get_elem? fields curr)) _ (λ f. Unit {0}) IsWords
        (Whenever-Unit (load (get_elem? fields curr)))
        λ f u.
          >>=-Whenever (decode_field buf begin f d) _ IsWords IsWords
            (>>=-Whenever
              (decode_kind (field_kind f.field_type) buf (begin + d.curr_pos) f.field_length d) _
              IsWords IsWords
              (decode_kind-IsWords (field_kind f.field_type) (begin + d.curr_pos) f.field_length d
                w)
              λ d' w'. w')
            λ d' w'. decode_fields-IsWords begin fields n (curr + 1) d' w'

module _ (platform : Platform) (P : FlowState → Type 0) (keeps : Keeps platform P) (stale : ℕ → ℕ)
    (buf : List ℕ) (bytes : IsBytes buf) where
  insert_decoded-Keeps :
      (sys secs : ℕ) (d : Decoded) (st : FlowState)
      → IsWords d
      → P st
      → Whenever (insert_decoded platform sys secs d st) P
  unfolding insert_decoded
  insert_decoded-Keeps sys secs d st w holds = elim (Bool-cases (is_complete d)) [
    | inl e ↦ rw (e, insert_decoded) (keeps d.src_addr d.dst_addr d.flow_bytes _ st w.0 w.1 holds)
    | inr e ↦ rw (e, insert_decoded) holds
  ]

  handle_record-Keeps :
      (begin : ℕ) (t : Template) (curr_pos : ℕ) (st : FlowState)
      → P st
      → Whenever (handle_record platform stale buf begin t curr_pos st) (λ r. P r.1)
  unfolding handle_record
  handle_record-Keeps begin t curr_pos st holds =
      >>=-Whenever (read_be32 buf 4) _ (λ v. Unit {0}) (λ r. P r.1)
        (Whenever-Unit (read_be32 buf 4))
        λ sys u.
          >>=-Whenever (read_be32 buf 8) _ (λ v. Unit {0}) (λ r. P r.1)
            (Whenever-Unit (read_be32 buf 8))
            λ secs u'.
              >>=-Whenever
                (decode_fields buf begin t.fields t.field_count 0 (record {
                  src_addr = 0;
                  dst_addr = 0;
                  flow_bytes = 0;
                  first_packet_time = stale curr_pos;
                  curr_pos = curr_pos;
                }))
                _ IsWords (λ r. P r.1)
                (decode_fields-IsWords buf bytes begin t.fields t.field_count 0 _
                  (omega arith, omega arith))
                λ d w.
                  >>=-Whenever (insert_decoded platform sys secs d st) _ P (λ r. P r.1)
                    (insert_decoded-Keeps sys secs d st w holds) λ st' holds'. holds'

  handle_records-Keeps :
      (fuel begin data_len : ℕ) (t : Template) (curr_pos : ℕ) (st : FlowState)
      → P st
      → Whenever (handle_records fuel platform stale buf begin data_len t curr_pos st) P
  unfolding handle_records
  handle_records-Keeps zero begin data_len t curr_pos st holds = tt
  handle_records-Keeps (suc fuel) begin data_len t curr_pos st holds =
      elim (Bool-cases (ltb (curr_pos + t.record_length) data_len)) [
        | inr e ↦ rw (e, handle_records) holds
        | inl e ↦
            rw (e, handle_records)
              (>>=-Whenever (handle_record platform stale buf begin t curr_pos st) _ (λ r. P r.1) P
                (handle_record-Keeps begin t curr_pos st holds)
                λ r holds'. handle_records-Keeps fuel begin data_len t r.0 r.1 holds')
      ]

  pub handle_data-Keeps :
      (fuel source_ip source_id p : ℕ) (tables : Tables) (st : FlowState)
      → P st
      → Whenever (handle_data fuel platform stale buf source_ip source_id p tables st) P
  unfolding handle_data handle_template
  handle_data-Keeps fuel source_ip source_id p tables st holds =
      >>=-Whenever (read_be16 buf (p + 2)) _ (λ v. Unit {0}) P
        (Whenever-Unit (read_be16 buf (p + 2)))
        λ data_len u.
          >>=-Whenever (read_be16 buf p) _ (λ v. Unit {0}) P (Whenever-Unit (read_be16 buf p))
            λ id u'.
              >>=-Whenever
                (template_index (hashing_source_info source_ip source_id) (hashing_template_id id))
                _ (λ i. Unit {0}) P
                (Whenever-Unit (
                  template_index (hashing_source_info source_ip source_id)
                    (hashing_template_id id)))
                λ i u''.
                  >>=-Whenever (load (get_elem? tables.template_table i)) _ (λ t. Unit {0}) P
                    (Whenever-Unit (load (get_elem? tables.template_table i)))
                    λ t w. elim (Bool-cases (t.template_type == template_type_none)) [
                      | inl e ↦ rw e holds
                      | inr e ↦ rw e (handle_records-Keeps fuel (p + 4) data_len t 0 st holds)
                    ]
