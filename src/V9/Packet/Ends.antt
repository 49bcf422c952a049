-- ===== src/V9/Packet/Ends.antt =====
-- When the walk over the flowsets of a packet ends.
use flowstatd.Base.{
  ℕ, zero, suc, ◌+◌, ◌-◌, ◌≤◌, ◌<◌, ◌≡◌, ◌≢◌, refl, ◌∙◌, arith, ltb, ◌==◌, List, All, Run, done,
  out_of_fuel, true, false, Bool-cases, inl, inr, Ends, Ends-weaken, >>=-Ends,
}
use flowstatd.Base.Words.{word16, read_be16, read_be32}
use flowstatd.Base.Reads.{IsBytes, read_be32-Ends}
use flowstatd.Clock.{Platform}
use flowstatd.Flow.Shape.{IsSound}
use flowstatd.V9.Tables.{Tables}
use flowstatd.V9.Save.{save_templates}
use flowstatd.V9.Save.Ends.{save_templates-Ends}
use flowstatd.V9.Handle.{handle_data}
use flowstatd.V9.Handle.Loop.{IsWide, handle_data-Ends}
use flowstatd.V9.Packet.{V9State, handle_flowset, insert_flow_entry_v9, add_flow_data_v9}

-- The flowsets from a position on, as the walk meets them with these tables: each claims a length above
-- 0, and no template that is saved has fields of no width in all.
pub data Walk (buf : List ℕ) (packet_len source_ip : ℕ) : ℕ → Tables → Type 0 where
  over : {p : ℕ} {tables : Tables} → packet_len ≤ p → Walk buf packet_len source_ip p tables
  past :
      {p id len : ℕ} {tables : Tables}
      → read_be16 buf p ≡ done id
      → read_be16 buf (p + 2) ≡ done len
      → id ≢ 0
      → 0 < len
      → Walk buf packet_len source_ip (p + len) tables
      → Walk buf packet_len source_ip p tables
  saving :
      {p len : ℕ} {tables : Tables}
      → read_be16 buf p ≡ done 0
      → read_be16 buf (p + 2) ≡ done len
      → 0 < len
      → len < word16
      → ((source_id : ℕ) (saved : Tables)
          → read_be32 buf 16 ≡ done source_id
          → save_templates 65536 buf source_ip source_id p (len - 4) 0 tables ≡ done saved
          → All IsWide saved.template_table)
      → ((source_id : ℕ) (saved : Tables)
          → read_be32 buf 16 ≡ done source_id
          → save_templates 65536 buf source_ip source_id p (len - 4) 0 tables ≡ done saved
          → Walk buf packet_len source_ip (p + len) saved)
      → Walk buf packet_len source_ip p tables

-- A run that ends, with the equation of its value.
pub Ends-known :
    {A : Type 0} (m : Run A) (P : A → Type 0) → Ends m P → Ends m (λ a. P a × (m ≡ done a))
Ends-known (done a) P h = (h, refl)
Ends-known Run.undefined P h = tt
Ends-known out_of_fuel P h = absurd h

module _ (packet_len : ℕ) where
  nearer :
      (p len fuel : ℕ)
      → ltb p packet_len ≡ true
      → 0 < len
      → packet_len - p < suc fuel
      → packet_len - (p + len) < fuel
  nearer p len fuel e positive enough = ground arith

module _ (platform : Platform) (stale : ℕ → ℕ) (buf : List ℕ) (bytes : IsBytes buf)
    (packet_len source_ip : ℕ) where
  data_flowset-Ends :
      (p id len : ℕ) (st : V9State)
      → id ≢ 0
      → All IsWide st.tables.template_table
      → IsSound st.flows
      → Ends
          (handle_flowset 65536 platform stale buf source_ip p id len st)
          (λ st'. IsSound st'.flows × (st'.tables ≡ st.tables))
  unfolding handle_flowset
  data_flowset-Ends p id len st ne wide sound =
      let no_template : (id == 0) ≡ false = (ground (arith, ne)) in
      elim (Bool-cases (ltb 255 id)) [
        | inr e ↦ rw (no_template, e) (sound, refl)
        | inl e ↦
            rw (no_template, e)
              (>>=-Ends (read_be32 buf 16) _ (λ v. Unit {0}) _
                (Ends-weaken (read_be32 buf 16) _ _ (read_be32-Ends buf bytes 16) (λ v h. tt))
                (λ source_id u.
                  >>=-Ends
                    (handle_data 65536 platform stale buf source_ip source_id p st.tables st.flows)
                    _ IsSound _
                    (handle_data-Ends 65536 platform stale buf source_ip source_id p st.tables
                      st.flows bytes wide sound (omega arith))
                    (λ flows kept. (kept, refl))))
      ]

  template_flowset-Ends :
      (p len : ℕ) (st : V9State)
      → len < word16
      → ((source_id : ℕ) (saved : Tables)
          → read_be32 buf 16 ≡ done source_id
          → save_templates 65536 buf source_ip source_id p (len - 4) 0 st.tables ≡ done saved
          → All IsWide saved.template_table)
      → ((source_id : ℕ) (saved : Tables)
          → read_be32 buf 16 ≡ done source_id
          → save_templates 65536 buf source_ip source_id p (len - 4) 0 st.tables ≡ done saved
          → Walk buf packet_len source_ip (p + len) saved)
      → Ends (handle_flowset 65536 platform stale buf source_ip p 0 len st) (λ st'.
        (st'.flows ≡ st.flows)
        × All IsWide st'.tables.template_table
        × Walk buf packet_len source_ip (p + len) st'.tables)
  unfolding handle_flowset
  template_flowset-Ends p len st small wide rest =
      >>=-Ends (read_be32 buf 16) _ (λ v. Unit {0} × (read_be32 buf 16 ≡ done v)) _
        (Ends-known (read_be32 buf 16) _ (
          Ends-weaken (read_be32 buf 16) _ (λ v. Unit {0}) (read_be32-Ends buf bytes 16)
            (λ v h. tt)))
        (λ source_id e.
          let run = save_templates 65536 buf source_ip source_id p (len - 4) 0 st.tables in
          >>=-Ends run _ (λ saved. Unit {0} × (run ≡ done saved)) _
            (Ends-known run _ (
              save_templates-Ends buf bytes 65536 source_ip source_id p (len - 4) 0 st.tables
                (omega arith)))
            (λ saved f. (refl, wide source_id saved e.1 f.1, rest source_id saved e.1 f.1)))

  -- The walk, from a position on.
  insert_flow_entry_v9-Ends :
      (fuel p : ℕ) (tables : Tables) (st : V9State)
      → Walk buf packet_len source_ip p tables
      → st.tables ≡ tables
      → All IsWide st.tables.template_table
      → IsSound st.flows
      → packet_len - p < fuel
      → Ends
          (insert_flow_entry_v9 fuel 65536 platform stale buf packet_len source_ip p st)
          (λ st'. IsSound st'.flows × All IsWide st'.tables.template_table)
  unfolding insert_flow_entry_v9
  insert_flow_entry_v9-Ends zero p tables st walk same wide sound enough = absurd (omega arith)
  insert_flow_entry_v9-Ends (suc fuel) p tables st (Walk.over end) same wide sound enough =
      let outside : ltb p packet_len ≡ false = (ground (arith, end)) in
      rw (outside, insert_flow_entry_v9) (sound, wide)
  insert_flow_entry_v9-Ends (suc fuel) p tables st
        (Walk.past {id = id} {len = len} e_id e_len ne positive walk) same wide sound enough =
      elim (Bool-cases (ltb p packet_len)) [
        | inr e ↦ rw (e, insert_flow_entry_v9) (sound, wide)
        | inl e ↦
            rw (e, insert_flow_entry_v9, e_id, e_len)
              (>>=-Ends (handle_flowset 65536 platform stale buf source_ip p id len st) _ _ _
                (data_flowset-Ends p id len st ne wide sound)
                (λ st' kept.
                  insert_flow_entry_v9-Ends fuel (p + len) tables st' walk (kept.1 ∙ same)
                    (rw kept.1 wide) kept.0 (nearer packet_len p len fuel e positive enough)))
      ]
  insert_flow_entry_v9-Ends (suc fuel) p tables st
        (Walk.saving {len = len} e_id e_len positive small wider rest) same wide sound enough =
      elim (Bool-cases (ltb p packet_len)) [
        | inr e ↦ rw (e, insert_flow_entry_v9) (sound, wide)
        | inl e ↦
            rw (e, insert_flow_entry_v9, e_id, e_len)
              (>>=-Ends (handle_flowset 65536 platform stale buf source_ip p 0 len st) _ _ _
                (template_flowset-Ends p len st small (rw same wider) (rw same rest))
                (λ st' kept.
                  insert_flow_entry_v9-Ends fuel (p + len) st'.tables st' kept.2 refl kept.1
                    (rw kept.0 sound) (nearer packet_len p len fuel e positive enough)))
      ]

  -- A v9 packet in which every flowset that the walk meets claims a length above 0, with no template
  -- saved, before or by the packet, whose fields have no width in all: `AddFlowDataV9Impl` ends, for a
  -- fuel above the length of the packet, and if it stays inside the arrays it leaves sound counters and
  -- again no template whose fields have no width in all.
  pub add_flow_data_v9-Ends :
      (fuel : ℕ) (st : V9State)
      → Walk buf packet_len source_ip 20 st.tables
      → All IsWide st.tables.template_table
      → IsSound st.flows
      → packet_len < fuel
      → Ends
          (add_flow_data_v9 fuel 65536 platform stale buf packet_len source_ip st)
          (λ st'. IsSound st'.flows × All IsWide st'.tables.template_table)
  unfolding add_flow_data_v9
  add_flow_data_v9-Ends fuel st walk wide sound enough =
      insert_flow_entry_v9-Ends fuel 20 st.tables st walk refl wide sound (omega arith)
