-- ===== src/V9/Save.antt =====
-- `_SaveTemplate`: a template of a packet is copied into the table.
pub mod Fields
pub mod Saved
pub mod Ends
use flowstatd.Base.{
  ℕ, zero, suc, ◌+◌, ◌-◌, ◌*◌, ◌%◌, leb, ltb, if◌then◌else◌, List, get_elem?, set, Option, none,
  some, Run, done, undefined, out_of_fuel, ◌>>=◌, load, true, false, ◌&&◌, length,
}
use flowstatd.Base.Words.{word16, read_be16}
use flowstatd.V9.Tables.{
  FlowsetRecord, Template, Source, Tables, max_fields_in_template, template_type_template,
  hashing_template_id, hashing_source_info, template_index,
}

-- A write to a cell of an array.
unfoldable pub store {ℓ} : {A : Type ℓ} → List A → ℕ → A → Run (List A)
store xs i v = if ltb i (length xs) then done (set xs i v) else undefined

-- One round of the loop over the fields, for `fields[curr]`, read at `p`.
unfoldable pub save_field : List ℕ → ℕ → ℕ → Template → Run Template
unfolding store
save_field buf p curr t = do
  field_type ← read_be16 buf p
  field_length ← read_be16 buf (p + 2)
  fields ← store t.fields curr (record { field_type = field_type; field_length = field_length })
  done (record t { fields = fields; record_length = (t.record_length + field_length) % word16 })

-- The loop, for the rounds left, from the field `curr` at `p`.
unfoldable pub save_fields : List ℕ → ℕ → ℕ → ℕ → Template → Run Template
save_fields buf zero p curr t = done t
save_fields buf (suc rounds) p curr t =
    save_field buf p curr t >>= save_fields buf rounds (p + 4) (curr + 1)

-- The source's entry is written when it is free. A collision of two sources is only logged.
unfoldable pub claim_source : ℕ → ℕ → ℕ → Source → Source
claim_source source_ip source_id template_id s = elim s.template_ptr [
  | some p ↦ s
  | none ↦ record { source_ip = source_ip; source_id = source_id; template_ptr = some template_id }
]

-- `_SaveTemplate`, with `templateHeader` at `p`. The result is the size of the template.
unfoldable pub save_template : List ℕ → ℕ → ℕ → ℕ → Tables → Run (ℕ × Tables)
save_template buf source_ip source_id p tables = do
  header_id ← read_be16 buf p
  fields_count ← read_be16 buf (p + 2)
  let source_offset = hashing_source_info source_ip source_id
  template_id ← template_index source_offset (hashing_template_id header_id)
  source ← load (get_elem? tables.source_table source_offset)
  sources ←
      store tables.source_table source_offset (claim_source source_ip source_id template_id source)
  old ← load (get_elem? tables.template_table template_id)
  let count =
      if leb fields_count max_fields_in_template then fields_count else max_fields_in_template
  new ← save_fields buf count (p + 4) 0 (record old {
    template_type = template_type_template;
    field_count = count;
    record_length = 0;
  })
  templates ← store tables.template_table template_id new
  done (4 + count * 4, record { template_table = templates; source_table = sources })

-- The loop over the templates of a flowset of `flow_set_len` bytes after its header at `p`.
unfoldable pub save_templates : ℕ → List ℕ → ℕ → ℕ → ℕ → ℕ → ℕ → Tables → Run Tables
save_templates zero buf source_ip source_id p flow_set_len offset tables = out_of_fuel
save_templates (suc fuel) buf source_ip source_id p flow_set_len offset tables =
    elim (ltb offset flow_set_len) [
      | false ↦ done tables
      | true ↦ save_template buf source_ip source_id (p + 4 + offset) tables >>= λ r.
          save_templates fuel buf source_ip source_id p flow_set_len (offset + r.0) r.1
    ]
