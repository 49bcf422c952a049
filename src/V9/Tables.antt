-- ===== src/V9/Tables.antt =====
-- The tables of src/netflow_handler_v9.h, and the hashes that index them.
use flowstatd.Base.{
  ℕ, ◌+◌, ◌-◌, ◌*◌, ◌/◌, ◌%◌, ◌<◌, ◌^◌, arith, leb, ◌==◌, if◌then◌else◌, bit_xor, List, replicate,
  Option, none, Run, done, undefined, Ends, Bool-cases, inl, inr, ℤ, pos, negsuc,
}
use flowstatd.Base.Words.{word32, word64}

-- `struct NF_V9_flowset_record`
pub record FlowsetRecord : Type 0 where
  pub field_type : ℕ
  pub field_length : ℕ

-- `struct NF_V9_template_table_entry`
pub record Template : Type 0 where
  pub template_type : ℕ
  pub field_count : ℕ
  pub record_length : ℕ
  pub fields : List FlowsetRecord

-- `struct NF_V9_source_table_entry`; the pointer is an index of the template table.
pub record Source : Type 0 where
  pub source_ip : ℕ
  pub source_id : ℕ
  pub template_ptr : Option ℕ

-- `g_templateTable` and `g_sourceTable`
pub record Tables : Type 0 where
  pub template_table : List Template
  pub source_table : List Source

abbrev pub max_fields_in_template : ℕ
max_fields_in_template = 128

abbrev pub max_source_entries : ℕ
max_source_entries = 64

abbrev pub templates_per_source : ℕ
templates_per_source = 64

abbrev pub max_templates : ℕ
max_templates = templates_per_source * max_source_entries

abbrev pub template_type_none : ℕ
template_type_none = 0

abbrev pub template_type_template : ℕ
template_type_template = 1

-- An entry that `memset` cleared.
abbrev pub empty_template : Template
empty_template = record {
  template_type = template_type_none;
  field_count = 0;
  record_length = 0;
  fields = replicate max_fields_in_template (record { field_type = 0; field_length = 0 });
}

-- `NfHandlerInitV9Impl`
unfoldable pub init_tables : Tables
init_tables = record {
  template_table = replicate max_templates empty_template;
  source_table =
      replicate max_source_entries (record { source_ip = 0; source_id = 0; template_ptr = none });
}

-- `_HashingTemplateId`: C's `%` keeps the sign of a template id below 256.
unfoldable pub hashing_template_id : ℕ → ℤ
hashing_template_id id =
    if leb 256 id
    then pos ((id - 256) % templates_per_source)
    else if (256 - id) % templates_per_source == 0
    then pos 0
    else negsuc ((256 - id) % templates_per_source - 1)

-- The assignments to `key` (`unsigned long long`) that shift left and add, and shift right and xor.
abbrev pub add_shl : ℕ → ℕ → ℕ
add_shl key n = (key + key * 2 ^ n) % word64

abbrev pub xor_shr : ℕ → ℕ → ℕ
xor_shr key n = bit_xor key (key / 2 ^ n)

-- `_HashingSourceInfo`; the Cantor pairing is computed in 32 bits.
unfoldable pub hashing_source_info : ℕ → ℕ → ℕ
hashing_source_info source_ip source_id =
    let sum = (source_ip + source_id) % word32 in
    let key = (sum * ((sum + 1) % word32) % word32 / 2 + source_id) % word32 in
    let key = xor_shr (add_shl key 12) 22 in
    let key = xor_shr (add_shl key 4) 9 in
    let key = xor_shr (add_shl key 10) 2 in
    let key = xor_shr (add_shl key 7) 12 in
    let key = key / 2 ^ 3 * 2654435761 % word64 in key % max_source_entries

-- `sourceOffset * NF_V9_TEMPLATES_PER_SOURCE + templateOffset`, as the index of an array.
unfoldable pub template_index : ℕ → ℤ → Run ℕ
template_index source_offset (pos offset) = done (source_offset * templates_per_source + offset)
template_index source_offset (negsuc c) =
    if leb (c + 1) (source_offset * templates_per_source)
    then done (source_offset * templates_per_source - (c + 1))
    else undefined

pub hashing_source_info-lt :
    (source_ip source_id : ℕ) → hashing_source_info source_ip source_id < max_source_entries
unfolding hashing_source_info
hashing_source_info-lt source_ip source_id = omega arith

pub template_index-Ends : (offset : ℕ) (i : ℤ) → Ends (template_index offset i) (λ n. Unit {0})
unfolding template_index
template_index-Ends offset (pos n) = tt
template_index-Ends offset (negsuc c) =
    elim (Bool-cases (leb (c + 1) (offset * templates_per_source))) [
      | inl e ↦ rw e tt
      | inr e ↦ rw e tt
    ]
