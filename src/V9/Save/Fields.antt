-- ===== src/V9/Save/Fields.antt =====
-- The loop of `_SaveTemplate` over the fields of a template.
use flowstatd.Base.{
  ℕ, zero, suc, ◌+◌, ◌*◌, ◌%◌, ◌≤◌, ◌<◌, ◌≡◌, refl, ap, ◌∙◌, arith, ltb, List, length, get_elem?,
  set, length-set, get_elem?-set_self, get_elem?-set_ne, done, Returns, Returns-done, Option, none,
  some, true,
}
use flowstatd.Base.Words.{word16, read_be16}
use flowstatd.Base.Reads.{IsBytes, read_be16_some}
use flowstatd.V9.Tables.{FlowsetRecord, Template}
use flowstatd.V9.Save.{store, save_field, save_fields}

-- The widths of the fields from `curr` on, for `n` fields.
abbrev pub width_of : Option FlowsetRecord → ℕ
width_of none = 0
width_of (some f) = f.field_length

abbrev pub widths : List FlowsetRecord → ℕ → ℕ → ℕ
widths fields curr zero = 0
widths fields curr (suc n) = width_of (get_elem? fields curr) + widths fields (curr + 1) n

-- The field `i` is the pair of numbers that the packet has at `p`.
abbrev pub ParsedAt : List ℕ → ℕ → List FlowsetRecord → ℕ → Type 0
ParsedAt buf p fields i =
    (f : FlowsetRecord) × (get_elem? fields i ≡ some f)
    × (read_be16 buf p ≡ done f.field_type)
    × (read_be16 buf (p + 2) ≡ done f.field_length)

-- The fields from `curr` on are those that the packet has from `p` on, for `n` fields.
abbrev pub Parsed : List ℕ → ℕ → List FlowsetRecord → ℕ → ℕ → Type 0
Parsed buf p fields curr zero = Unit
Parsed buf p fields curr (suc n) =
    ParsedAt buf p fields curr × Parsed buf (p + 4) fields (curr + 1) n

pub store-Returns {ℓ} :
    {A : Type ℓ} (xs : List A) (i : ℕ) (v : A) → i < length xs → store xs i v ≡ done (set xs i v)
unfolding store
store-Returns xs i v h = let e : ltb i (length xs) ≡ true = ground arith in rw e

pub record Saved (buf : List ℕ) (n p curr : ℕ) (t t' : Template) : Type 0 where
  pub same_type : t'.template_type ≡ t.template_type
  pub same_count : t'.field_count ≡ t.field_count
  pub same_size : length t'.fields ≡ length t.fields
  pub parsed : Parsed buf p t'.fields curr n
  pub before : (j : ℕ) → j < curr → get_elem? t'.fields j ≡ get_elem? t.fields j
  pub summed : t'.record_length ≡ (t.record_length + widths t'.fields curr n) % word16

-- One round stores the field that the packet has at `p`.
save_field-done :
    (buf : List ℕ) (p curr : ℕ) (t : Template)
    → IsBytes buf
    → p + 4 ≤ length buf
    → curr < length t.fields
    → (f : FlowsetRecord) × (read_be16 buf p ≡ done f.field_type)
      × (read_be16 buf (p + 2) ≡ done f.field_length)
      × (save_field buf p curr t
          ≡ done (record t {
            fields = set t.fields curr f;
            record_length = (t.record_length + f.field_length) % word16;
          }))
unfolding save_field
save_field-done buf p curr t bytes h k =
    let (a, ea, _) = read_be16_some buf bytes p (omega arith) in
    let (b, eb, _) = read_be16_some buf bytes (p + 2) (omega arith) in
    let f : FlowsetRecord = record { field_type = a; field_length = b } in
    let fits : ltb curr (length t.fields) ≡ true = ground arith in (f, ea, eb, rw (ea, eb, fits))

-- The entry after one round.
abbrev with_field : ℕ → FlowsetRecord → Template → Template
with_field curr f t = record t {
  fields = set t.fields curr f;
  record_length = (t.record_length + f.field_length) % word16;
}

Saved-step :
    (buf : List ℕ) (n p curr : ℕ) (t t' : Template) (f : FlowsetRecord)
    → read_be16 buf p ≡ done f.field_type
    → read_be16 buf (p + 2) ≡ done f.field_length
    → curr < length t.fields
    → Saved buf n (p + 4) (curr + 1) (with_field curr f t) t'
    → Saved buf (suc n) p curr t t'
Saved-step buf n p curr t t' f ea eb k rest =
    let here : get_elem? t'.fields curr ≡ some f =
      rest.before curr (omega arith) ∙ get_elem?-set_self t.fields curr f k in
    record {
      same_type = rest.same_type;
      same_count = rest.same_count;
      same_size = rest.same_size ∙ length-set t.fields curr f;
      parsed = ((f, here, ea, eb), rest.parsed);
      before =
          λ j lt. rest.before j (omega arith) ∙ get_elem?-set_ne t.fields curr j f (omega arith);
      summed = omega (arith, rest.summed, ap width_of here);
    }

pub save_fields-Saved :
    (buf : List ℕ) (n p curr : ℕ) (t : Template)
    → IsBytes buf
    → p + 4 * n ≤ length buf
    → curr + n ≤ length t.fields
    → t.record_length < word16
    → Returns (save_fields buf n p curr t) (Saved buf n p curr t)
unfolding save_fields
save_fields-Saved buf zero p curr t bytes h k small = record {
  same_type = refl;
  same_count = refl;
  same_size = refl;
  parsed = tt;
  before = λ j lt. refl;
  summed = omega arith;
}
save_fields-Saved buf (suc n) p curr t bytes h k small =
    let (f, ea, eb, step) = save_field-done buf p curr t bytes (omega arith) (omega arith) in
    let (t', e, rest) =
      Returns-done (save_fields buf n (p + 4) (curr + 1) (with_field curr f t))
        (Saved buf n (p + 4) (curr + 1) (with_field curr f t))
        (save_fields-Saved buf n (p + 4) (curr + 1) (with_field curr f t) bytes (omega arith)
          (omega (arith, length-set t.fields curr f)) (omega arith)) in
    rw (step, e) (Saved-step buf n p curr t t' f ea eb (omega arith) rest)
