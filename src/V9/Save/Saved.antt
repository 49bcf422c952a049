-- ===== src/V9/Save/Saved.antt =====
-- What `_SaveTemplate` leaves in the tables.
use flowstatd.Base.{
  ℕ, ◌+◌, ◌-◌, ◌*◌, ◌%◌, ◌≤◌, ◌<◌, ◌≡◌, ◌≢◌, refl, ◌∙◌, arith, leb, if◌then◌else◌, List, length,
  get_elem?, get_elem?-some, set, length-set, get_elem?-set_self, get_elem?-set_ne, All,
  All-get_elem?, All-set, done, Returns, Returns-done, some, true,
}
use flowstatd.Base.Words.{word16, read_be16}
use flowstatd.Base.Reads.{IsBytes}
use flowstatd.V9.Tables.{
  Template, Source, Tables, max_fields_in_template, template_type_template, max_templates,
  max_source_entries, templates_per_source, hashing_template_id, hashing_source_info,
  template_index, hashing_source_info-lt,
}
use flowstatd.V9.Save.{save_fields, claim_source, save_template}
use flowstatd.V9.Save.Fields.{Parsed, widths, store-Returns, Saved, save_fields-Saved}

-- The tables have the sizes that they were allocated with.
pub record IsAllocated (tables : Tables) : Type 0 where
  pub templates : length tables.template_table ≡ max_templates
  pub sources : length tables.source_table ≡ max_source_entries
  pub fields : All (λ t. length t.fields ≡ max_fields_in_template) tables.template_table

-- The index of a template id from 256 on, for a source.
abbrev pub slot : ℕ → ℕ → ℕ → ℕ
slot source_ip source_id id =
    hashing_source_info source_ip source_id * templates_per_source
    + (id - 256) % templates_per_source

slot-lt : (source_ip source_id id : ℕ) → slot source_ip source_id id < max_templates
slot-lt source_ip source_id id = omega (arith, hashing_source_info-lt source_ip source_id)

pub template_index-slot :
    (source_ip source_id id : ℕ)
    → 256 ≤ id
    → template_index (hashing_source_info source_ip source_id) (hashing_template_id id)
      ≡ done (slot source_ip source_id id)
unfolding template_index hashing_template_id
template_index-slot source_ip source_id id h = let e : leb 256 id ≡ true = ground arith in rw e

-- The number of fields that are kept.
abbrev pub kept : ℕ → ℕ
kept count = if leb count max_fields_in_template then count else max_fields_in_template

-- The outcome of `_SaveTemplate` for a template id and count at `p`: the size of the template, and
-- the entry of the source and id, with the fields of the packet. Every other entry is as before.
pub record SavesAs (buf : List ℕ) (source_ip source_id p id count : ℕ) (tables : Tables)
    (r : ℕ × Tables) : Type 0 where
  pub size : r.0 ≡ 4 + 4 * kept count
  pub allocated : IsAllocated r.1
  pub entry : Template
  pub at_entry : get_elem? r.1.template_table (slot source_ip source_id id) ≡ some entry
  pub is_template : entry.template_type ≡ template_type_template
  pub counted : entry.field_count ≡ kept count
  pub parsed : Parsed buf (p + 4) entry.fields 0 (kept count)
  pub summed : entry.record_length ≡ widths entry.fields 0 (kept count) % word16
  pub others :
      (j : ℕ)
      → slot source_ip source_id id ≢ j
      → get_elem? r.1.template_table j ≡ get_elem? tables.template_table j

kept-le : (count : ℕ) → kept count ≤ max_fields_in_template
kept-le count = ground arith

-- The entry before the loop over the fields.
abbrev cleared_template : ℕ → Template → Template
cleared_template n old = record old {
  template_type = template_type_template;
  field_count = n;
  record_length = 0;
}

saved_tables :
    (buf : List ℕ) (source_ip source_id p id count : ℕ) (tables : Tables)
    → IsAllocated tables
    → (start new : Template) (source : Source) → length start.fields ≡ max_fields_in_template
    → start.template_type ≡ template_type_template
    → start.field_count ≡ kept count
    → start.record_length ≡ 0
    → Saved buf (kept count) (p + 4) 0 start new
    → slot source_ip source_id id < length tables.template_table
    → SavesAs buf source_ip source_id p id count tables (
      4 + kept count * 4,
      record {
        template_table = set tables.template_table (slot source_ip source_id id) new;
        source_table = set tables.source_table (hashing_source_info source_ip source_id) source;
      },
    )
saved_tables buf source_ip source_id p id count tables alloc start new source size_start e_type
      e_count e_length saved inside =
    record {
      size = omega arith;
      allocated = record {
        templates = length-set tables.template_table _ new ∙ alloc.templates;
        sources = length-set tables.source_table _ source ∙ alloc.sources;
        fields =
            All-set (λ t. length t.fields ≡ max_fields_in_template) tables.template_table _ new
              alloc.fields (saved.same_size ∙ size_start);
      };
      entry = new;
      at_entry = get_elem?-set_self tables.template_table _ new inside;
      is_template = saved.same_type ∙ e_type;
      counted = saved.same_count ∙ e_count;
      parsed = saved.parsed;
      summed = omega (arith, saved.summed, e_length);
      others = λ j ne. get_elem?-set_ne tables.template_table _ j new ne;
    }

-- `_SaveTemplate`, for a template that lies inside the buffer and has an id from 256 on, stores the
-- first 128 fields of the packet, and the sum of their lengths modulo 2^16, in the entry of the
-- source and id, and changes no other template. It accesses nothing outside the arrays.
pub save_template-SavesAs :
    (buf : List ℕ) (source_ip source_id p id count : ℕ) (tables : Tables)
    → IsBytes buf
    → IsAllocated tables
    → read_be16 buf p ≡ done id
    → read_be16 buf (p + 2) ≡ done count
    → 256 ≤ id
    → p + 4 + 4 * kept count ≤ length buf
    → Returns
        (save_template buf source_ip source_id p tables)
        (SavesAs buf source_ip source_id p id count tables)
unfolding save_template
save_template-SavesAs buf source_ip source_id p id count tables bytes alloc e_id e_count h fits =
    let at = slot source_ip source_id id in
    let offset = hashing_source_info source_ip source_id in
    let in_sources : offset < length tables.source_table =
      omega (arith, alloc.sources, hashing_source_info-lt source_ip source_id) in
    let in_templates : at < length tables.template_table =
      omega (arith, alloc.templates, slot-lt source_ip source_id id) in
    let (source, e_source) = get_elem?-some tables.source_table offset in_sources in
    let (old, e_old) = get_elem?-some tables.template_table at in_templates in
    let size_old =
      All-get_elem? (λ t. length t.fields ≡ max_fields_in_template) tables.template_table at
        alloc.fields e_old in
    let start = cleared_template (kept count) old in
    let (new, e_new, saved) =
      Returns-done (save_fields buf (kept count) (p + 4) 0 start)
        (Saved buf (kept count) (p + 4) 0 start)
        (save_fields-Saved buf (kept count) (p + 4) 0 start bytes fits
          (omega (arith, size_old, kept-le count)) (omega arith)) in
    rw
      (
        e_id,
        e_count,
        template_index-slot source_ip source_id id h,
        e_source,
        store-Returns tables.source_table offset (claim_source source_ip source_id at source)
            in_sources,
        e_old,
        e_new,
        store-Returns tables.template_table at new in_templates,
      )
      (saved_tables buf source_ip source_id p id count tables alloc start new
        (claim_source source_ip source_id at source) size_old refl refl refl saved in_templates)
