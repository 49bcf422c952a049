-- ===== src/V9/Handle/Loop.antt =====
-- The loop over the records of a data flowset, and when it ends.
use flowstatd.Base.{
  ℕ, zero, suc, ◌+◌, ◌-◌, ◌≤◌, ◌<◌, ◌≡◌, refl, arith, ltb, ◌==◌, Bool-cases, Option-cases, inl, inr,
  List, get_elem?, Ends, >>=-Ends, Returns-Ends, load, true, ◌⊎◌, All, All-get_elem?, Ends-weaken,
}
use flowstatd.Base.Words.{word16, word32, read_be16, read_be32}
use flowstatd.Base.Reads.{IsBytes, read_be16-Ends, read_be32-Ends, read_addr-Ends}
use flowstatd.Clock.{Platform}
use flowstatd.Flow.{FlowState}
use flowstatd.Flow.Shape.{IsSound, insert_nf_info-IsSound}
use flowstatd.V9.Tables.{
  FlowsetRecord, Template, Tables, template_type_none, hashing_template_id, hashing_source_info,
  template_index, template_index-Ends,
}
use flowstatd.V9.Save.Fields.{widths}
use flowstatd.V9.Handle.{
  Decoded, FieldKind, ipv4_src_addr, ipv4_dst_addr, in_bytes, first_switched, other, field_kind,
  read_in_bytes, decode_kind, decode_field, decode_fields, is_complete, insert_decoded,
  handle_record, handle_records, handle_template, handle_data,
}

-- The addresses are words, and the position is known.
record At (place : ℕ) (d : Decoded) : Type 0 where
  at : d.curr_pos ≡ place
  src : d.src_addr < word32
  dst : d.dst_addr < word32

module _ (buf : List ℕ) (bytes : IsBytes buf) where
  read_in_bytes-Ends : (p n v : ℕ) → Ends (read_in_bytes buf p n v) (λ v. Unit {0})
  unfolding read_in_bytes
  read_in_bytes-Ends p n v =
      let four =
        Ends-weaken (read_be32 buf p) (λ v. v < word32) (λ v. Unit {0}) (read_be32-Ends buf bytes p)
          (λ _ _. tt) in
      let two =
        Ends-weaken (read_be16 buf p) (λ v. v < word16) (λ v. Unit {0}) (read_be16-Ends buf bytes p)
          (λ _ _. tt) in
      elim (Bool-cases (n == 4)) [
        | inl e ↦ rw e four
        | inr e ↦ elim (Bool-cases (n == 2)) [ inl e' ↦ rw (e, e') two | inr e' ↦ rw (e, e') tt ]
      ]

  decode_kind-Ends :
      (k : FieldKind) (p n place : ℕ) (d : Decoded)
      → At place d
      → Ends (decode_kind k buf p n d) (At place)
  unfolding decode_kind
  decode_kind-Ends ipv4_src_addr p n place d a =
      >>=-Ends _ _ (λ v. v < word32) (At place) (read_addr-Ends buf bytes p)
        λ v lt. record { at = a.at; src = lt; dst = a.dst }
  decode_kind-Ends ipv4_dst_addr p n place d a =
      >>=-Ends _ _ (λ v. v < word32) (At place) (read_addr-Ends buf bytes p)
        λ v lt. record { at = a.at; src = a.src; dst = lt }
  decode_kind-Ends in_bytes p n place d a =
      >>=-Ends _ _ (λ v. Unit {0}) (At place) (read_in_bytes-Ends p n d.flow_bytes)
        λ v _. record { at = a.at; src = a.src; dst = a.dst }
  decode_kind-Ends first_switched p n place d a =
      >>=-Ends _ _ (λ v. v < word32) (At place) (read_be32-Ends buf bytes p)
        λ v _. record { at = a.at; src = a.src; dst = a.dst }
  decode_kind-Ends other p n place d a = a

  decode_field-Ends :
      (begin place : ℕ) (f : FlowsetRecord) (d : Decoded)
      → At place d
      → Ends (decode_field buf begin f d) (At (place + f.field_length))
  unfolding decode_field
  decode_field-Ends begin place f d a =
      >>=-Ends _ _ (At place) (At (place + f.field_length))
        (decode_kind-Ends (field_kind f.field_type) (begin + d.curr_pos) f.field_length place d a)
        λ d' a'. record { at = omega (arith, a.at); src = a'.src; dst = a'.dst }

  -- A record that is decoded ends by the widths of its fields further on.
  decode_fields-Ends :
      (begin : ℕ) (fields : List FlowsetRecord) (n curr place : ℕ) (d : Decoded)
      → At place d
      → Ends (decode_fields buf begin fields n curr d) (At (place + widths fields curr n))
  unfolding decode_fields
  decode_fields-Ends begin fields zero curr place d a = record {
    at = omega (arith, a.at);
    src = a.src;
    dst = a.dst;
  }
  decode_fields-Ends begin fields (suc n) curr place d a =
      elim (Option-cases (get_elem? fields curr)) [
        | inl e ↦ rw e tt
        | inr (f, e) ↦ rw e (
            >>=-Ends (decode_field buf begin f d) _ (At (place + f.field_length)) _
              (decode_field-Ends begin place f d a)
              λ d' a'.
                Ends-weaken (decode_fields buf begin fields n (curr + 1) d') _ _
                  (decode_fields-Ends begin fields n (curr + 1) (place + f.field_length) d' a')
                  (λ d'' a''. record { at = omega (arith, a''.at); src = a''.src; dst = a''.dst }))
      ]

closer :
    (place record_length len next width fuel : ℕ)
    → ltb (place + record_length) len ≡ true
    → next ≡ place + width
    → 0 < width
    → len - place < suc fuel
    → len - next < fuel
closer place record_length len next width fuel e h wide enough = ground arith

module _ (platform : Platform) (stale : ℕ → ℕ) (buf : List ℕ) (bytes : IsBytes buf) (begin : ℕ)
    (t : Template) where
  insert_decoded-Ends :
      (sys secs place : ℕ) (d : Decoded) (st : FlowState)
      → At place d
      → IsSound st
      → Ends (insert_decoded platform sys secs d st) IsSound
  unfolding insert_decoded
  insert_decoded-Ends sys secs place d st a sound = elim (Bool-cases (is_complete d)) [
    | inl e ↦ rw e (
        Returns-Ends _ IsSound (
          insert_nf_info-IsSound platform d.src_addr d.dst_addr d.flow_bytes _ st sound a.src
            a.dst))
    | inr e ↦ rw e sound
  ]

  -- One record moves the position by the widths of the template's fields.
  abbrev Advanced : ℕ → ℕ × FlowState → Type 0
  Advanced curr_pos r = (r.0 ≡ curr_pos + widths t.fields 0 t.field_count) × IsSound r.1

  handle_record-Ends :
      (curr_pos : ℕ) (st : FlowState)
      → IsSound st
      → Ends (handle_record platform stale buf begin t curr_pos st) (Advanced curr_pos)
  unfolding handle_record
  handle_record-Ends curr_pos st sound =
      >>=-Ends (read_be32 buf 4) _ (λ v. v < word32) (Advanced curr_pos)
        (read_be32-Ends buf bytes 4)
        λ sys _.
          >>=-Ends (read_be32 buf 8) _ (λ v. v < word32) (Advanced curr_pos)
            (read_be32-Ends buf bytes 8)
            λ secs _.
              >>=-Ends _ _ (At (curr_pos + widths t.fields 0 t.field_count)) (Advanced curr_pos)
                (decode_fields-Ends buf bytes begin t.fields t.field_count 0 curr_pos _
                  (record { at = refl; src = omega arith; dst = omega arith }))
                λ d a.
                  >>=-Ends (insert_decoded platform sys secs d st) _ IsSound (Advanced curr_pos)
                    (insert_decoded-Ends sys secs _ d st a sound) λ st' sound'. (a.at, sound')

  handle_records-Ends :
      (fuel data_len curr_pos : ℕ) (st : FlowState)
      → 0 < widths t.fields 0 t.field_count
      → data_len - curr_pos < fuel
      → IsSound st
      → Ends (handle_records fuel platform stale buf begin data_len t curr_pos st) IsSound
  unfolding handle_records
  handle_records-Ends zero data_len curr_pos st wide enough sound = absurd (omega arith)
  handle_records-Ends (suc fuel) data_len curr_pos st wide enough sound =
      elim (Bool-cases (ltb (curr_pos + t.record_length) data_len)) [
        | inr e ↦ rw (e, handle_records) sound
        | inl e ↦
            rw (e, handle_records)
              (>>=-Ends (handle_record platform stale buf begin t curr_pos st) _ (Advanced curr_pos)
                IsSound (handle_record-Ends curr_pos st sound)
                λ r a.
                  handle_records-Ends fuel data_len r.0 r.1 wide
                    (closer curr_pos t.record_length data_len r.0 _ fuel e a.0 wide enough) a.1)
      ]

-- A saved template of no width would not move the loop on.
abbrev pub IsWide : Template → Type 0
IsWide t = (t.template_type ≡ template_type_none) ⊎ (0 < widths t.fields 0 t.field_count)

handle_template-Ends :
    (fuel : ℕ) (platform : Platform) (stale : ℕ → ℕ) (buf : List ℕ) (begin data_len : ℕ)
    (t : Template) (st : FlowState)
    → IsBytes buf
    → IsWide t
    → IsSound st
    → data_len < fuel
    → Ends (handle_template fuel platform stale buf begin data_len t st) IsSound
unfolding handle_template
handle_template-Ends fuel platform stale buf begin data_len t st bytes (inl e) sound enough =
    rw e sound
handle_template-Ends fuel platform stale buf begin data_len t st bytes (inr wide) sound enough =
    elim (Bool-cases (t.template_type == template_type_none)) [
      | inl e ↦ rw e sound
      | inr e ↦ rw e (
          handle_records-Ends platform stale buf bytes begin t fuel data_len 0 st wide (omega arith)
            sound)
    ]

load-Ends {ℓ} :
    {A : Type ℓ} (P : A → Type 0) (xs : List A) (i : ℕ) → All P xs → Ends (load (get_elem? xs i)) P
load-Ends P xs i h = elim (Option-cases (get_elem? xs i)) [
  | inl e ↦ rw e tt
  | inr (a, e) ↦ rw e (All-get_elem? P xs i h e)
]

-- `_HandleData`, for a flowset id from 256 on, ends on every packet if no saved template has fields
-- of no width in all, whatever lengths the packet claims: 65536 rounds are enough. If it stays inside
-- the buffer it keeps the invariant of the counters.
pub handle_data-Ends :
    (fuel : ℕ) (platform : Platform) (stale : ℕ → ℕ) (buf : List ℕ) (source_ip source_id p : ℕ)
    (tables : Tables) (st : FlowState)
    → IsBytes buf
    → All IsWide tables.template_table
    → IsSound st
    → 65536 ≤ fuel
    → Ends (handle_data fuel platform stale buf source_ip source_id p tables st) IsSound
unfolding handle_data
handle_data-Ends fuel platform stale buf source_ip source_id p tables st bytes wide sound enough =
    >>=-Ends (read_be16 buf (p + 2)) _ (λ v. v < word16) IsSound (read_be16-Ends buf bytes (p + 2))
      λ data_len small.
        >>=-Ends (read_be16 buf p) _ (λ v. v < word16) IsSound (read_be16-Ends buf bytes p)
          λ id _.
            >>=-Ends
              (template_index (hashing_source_info source_ip source_id) (hashing_template_id id)) _
              (λ i. Unit {0}) IsSound (template_index-Ends _ _)
              λ i _.
                >>=-Ends (load (get_elem? tables.template_table i)) _ IsWide IsSound
                  (load-Ends IsWide tables.template_table i wide)
                  λ t w.
                    handle_template-Ends fuel platform stale buf (p + 4) data_len t st bytes w sound
                      (omega arith)
