-- ===== src/V9/Packet/Kept.antt =====
-- What any v9 packet keeps, as far as it is read.
use flowstatd.Base.{
  ℕ, zero, suc, ◌+◌, ◌-◌, ltb, ◌==◌, Bool-cases, inl, inr, List, Whenever, Whenever-Unit,
  >>=-Whenever,
}
use flowstatd.Base.Words.{read_be16, read_be32}
use flowstatd.Base.Reads.{IsBytes}
use flowstatd.Clock.{Platform}
use flowstatd.Flow.{FlowState}
use flowstatd.Flow.Kept.{Keeps}
use flowstatd.V9.Save.{save_templates}
use flowstatd.V9.Handle.{handle_data}
use flowstatd.V9.Handle.Kept.{handle_data-Keeps}
use flowstatd.V9.Packet.{V9State, handle_flowset, insert_flow_entry_v9, add_flow_data_v9}

module _ (platform : Platform) (P : FlowState → Type 0) (keeps : Keeps platform P) (stale : ℕ → ℕ)
    (buf : List ℕ) (bytes : IsBytes buf) where
  -- The counters of the handler's state.
  abbrev Q : V9State → Type 0
  Q st = P st.flows

  handle_flowset-Keeps :
      (fuel source_ip p id len : ℕ) (st : V9State)
      → Q st
      → Whenever (handle_flowset fuel platform stale buf source_ip p id len st) Q
  unfolding handle_flowset
  handle_flowset-Keeps fuel source_ip p id len st holds = elim (Bool-cases (id == 0)) [
    | inl e ↦
        rw (e, handle_flowset)
          (>>=-Whenever (read_be32 buf 16) _ (λ v. Unit {0}) Q (Whenever-Unit (read_be32 buf 16))
            λ source_id u.
              >>=-Whenever (save_templates fuel buf source_ip source_id p (len - 4) 0 st.tables) _
                (λ t. Unit {0}) Q
                (Whenever-Unit
                  (save_templates fuel buf source_ip source_id p (len - 4) 0 st.tables))
                λ t v. holds)
    | inr e ↦ elim (Bool-cases (ltb 255 id)) [
      | inr e' ↦ rw (e, handle_flowset, e') holds
      | inl e' ↦
          rw (e, handle_flowset, e')
            (>>=-Whenever (read_be32 buf 16) _ (λ v. Unit {0}) Q (Whenever-Unit (read_be32 buf 16))
              λ source_id u.
                >>=-Whenever
                  (handle_data fuel platform stale buf source_ip source_id p st.tables st.flows) _ P
                  Q
                  (handle_data-Keeps platform P keeps stale buf bytes fuel source_ip source_id p
                    st.tables st.flows holds)
                  λ flows kept. kept)
    ]
  ]

  insert_flow_entry_v9-Keeps :
      (fuel inner packet_len source_ip p : ℕ) (st : V9State)
      → Q st
      → Whenever (insert_flow_entry_v9 fuel inner platform stale buf packet_len source_ip p st) Q
  unfolding insert_flow_entry_v9
  insert_flow_entry_v9-Keeps zero inner packet_len source_ip p st holds = tt
  insert_flow_entry_v9-Keeps (suc fuel) inner packet_len source_ip p st holds =
      elim (Bool-cases (ltb p packet_len)) [
        | inr e ↦ rw (e, insert_flow_entry_v9) holds
        | inl e ↦
            rw (e, insert_flow_entry_v9)
              (>>=-Whenever (read_be16 buf p) _ (λ v. Unit {0}) Q (Whenever-Unit (read_be16 buf p))
                λ id u.
                  >>=-Whenever (read_be16 buf (p + 2)) _ (λ v. Unit {0}) Q
                    (Whenever-Unit (read_be16 buf (p + 2)))
                    λ len v.
                      >>=-Whenever (handle_flowset inner platform stale buf source_ip p id len st) _
                        Q Q (handle_flowset-Keeps inner source_ip p id len st holds)
                        λ st' holds'.
                          insert_flow_entry_v9-Keeps fuel inner packet_len source_ip (p + len) st'
                            holds')
      ]

  pub add_flow_data_v9-Keeps :
      (fuel inner packet_len source_ip : ℕ) (st : V9State)
      → Q st
      → Whenever (add_flow_data_v9 fuel inner platform stale buf packet_len source_ip st) Q
  unfolding add_flow_data_v9
  add_flow_data_v9-Keeps fuel inner packet_len source_ip st holds =
      insert_flow_entry_v9-Keeps fuel inner packet_len source_ip 20 st holds
