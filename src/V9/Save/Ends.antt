-- ===== src/V9/Save/Ends.antt =====
-- The loop over the templates of a flowset always ends.
use flowstatd.Base.{
  ℕ, zero, suc, ◌+◌, ◌-◌, ◌≤◌, ◌<◌, ◌≡◌, arith, ltb, Bool-cases, inl, inr, List, length, get_elem?,
  Ends, >>=-Ends, Option-cases, load, true,
}
use flowstatd.Base.Words.{word16, read_be16}
use flowstatd.Base.Reads.{IsBytes, read_be16-Ends}
use flowstatd.V9.Tables.{
  Template, Tables, hashing_template_id, hashing_source_info, template_index, template_index-Ends,
}
use flowstatd.V9.Save.{store, save_field, save_fields, claim_source, save_template, save_templates}

-- Nothing is said of the value.
abbrev Any {ℓ} : {A : Type ℓ} → A → Type 0
Any a = Unit

store-Ends {ℓ} : {A : Type ℓ} (xs : List A) (i : ℕ) (v : A) → Ends (store xs i v) Any
unfolding store
store-Ends xs i v = elim (Bool-cases (ltb i (length xs))) [ inl e ↦ rw e tt | inr e ↦ rw e tt ]

load-Ends-Any {ℓ} : {A : Type ℓ} (xs : List A) (i : ℕ) → Ends (load (get_elem? xs i)) Any
load-Ends-Any xs i = elim (Option-cases (get_elem? xs i)) [ inl e ↦ rw e tt | inr (a, e) ↦ rw e tt ]

module _ (buf : List ℕ) (bytes : IsBytes buf) where
  save_field-Ends : (p curr : ℕ) (t : Template) → Ends (save_field buf p curr t) Any
  unfolding save_field
  save_field-Ends p curr t =
      >>=-Ends (read_be16 buf p) _ (λ v. v < word16) Any (read_be16-Ends buf bytes p)
        λ a _.
          >>=-Ends (read_be16 buf (p + 2)) _ (λ v. v < word16) Any
            (read_be16-Ends buf bytes (p + 2))
            λ b _.
              >>=-Ends _ _ Any Any
                (store-Ends t.fields curr (record { field_type = a; field_length = b }))
                λ fields _. tt

  save_fields-Ends : (n p curr : ℕ) (t : Template) → Ends (save_fields buf n p curr t) Any
  unfolding save_fields
  save_fields-Ends zero p curr t = tt
  save_fields-Ends (suc n) p curr t =
      >>=-Ends (save_field buf p curr t) _ Any Any (save_field-Ends p curr t)
        λ t' _. save_fields-Ends n (p + 4) (curr + 1) t'

  save_template-Ends :
      (source_ip source_id p : ℕ) (tables : Tables)
      → Ends (save_template buf source_ip source_id p tables) (λ r. 4 ≤ r.0)
  unfolding save_template
  save_template-Ends source_ip source_id p tables =
      let offset = hashing_source_info source_ip source_id in
      >>=-Ends (read_be16 buf p) _ (λ v. v < word16) (λ r. 4 ≤ r.0) (read_be16-Ends buf bytes p)
        λ id _.
          >>=-Ends (read_be16 buf (p + 2)) _ (λ v. v < word16) (λ r. 4 ≤ r.0)
            (read_be16-Ends buf bytes (p + 2))
            λ count _.
              >>=-Ends (template_index offset (hashing_template_id id)) _ Any (λ r. 4 ≤ r.0)
                (template_index-Ends _ _)
                λ at _.
                  >>=-Ends (load (get_elem? tables.source_table offset)) _ Any (λ r. 4 ≤ r.0)
                    (load-Ends-Any tables.source_table offset)
                    λ source _.
                      >>=-Ends
                        (store tables.source_table offset
                          (claim_source source_ip source_id at source))
                        _ Any (λ r. 4 ≤ r.0) (store-Ends tables.source_table offset _)
                        λ sources _.
                          >>=-Ends (load (get_elem? tables.template_table at)) _ Any (λ r. 4 ≤ r.0)
                            (load-Ends-Any tables.template_table at)
                            λ old _.
                              >>=-Ends _ _ Any (λ r. 4 ≤ r.0) (save_fields-Ends _ (p + 4) 0 _)
                                λ new _.
                                  >>=-Ends (store tables.template_table at new) _ Any (λ r. 4 ≤ r.0)
                                    (store-Ends tables.template_table at new)
                                    λ templates _. omega arith

  -- Whatever a template flowset holds, the loop over its templates ends: a round for each byte of the
  -- flowset, and one more, are enough.
  pub save_templates-Ends :
      (fuel source_ip source_id p flow_set_len offset : ℕ) (tables : Tables)
      → flow_set_len - offset < fuel
      → Ends
          (save_templates fuel buf source_ip source_id p flow_set_len offset tables)
          (λ t. Unit {0})
  unfolding save_templates
  save_templates-Ends zero source_ip source_id p flow_set_len offset tables enough =
      absurd (omega arith)
  save_templates-Ends (suc fuel) source_ip source_id p flow_set_len offset tables enough =
      elim (Bool-cases (ltb offset flow_set_len)) [
        | inr e ↦ rw (e, save_templates) tt
        | inl e ↦
            rw (e, save_templates)
              (>>=-Ends (save_template buf source_ip source_id (p + 4 + offset) tables) _
                (λ r. 4 ≤ r.0) Any (save_template-Ends source_ip source_id (p + 4 + offset) tables)
                λ r big.
                  save_templates-Ends fuel source_ip source_id p flow_set_len (offset + r.0) r.1
                    (nearer offset flow_set_len r.0 fuel e big enough))
      ]
    where
      nearer :
          (offset len size fuel : ℕ)
          → ltb offset len ≡ true
          → 4 ≤ size
          → len - offset < suc fuel
          → len - (offset + size) < fuel
      nearer offset len size fuel e big enough = ground arith
