-- ===== src/V9/Handle/Recall.antt =====
-- A data flowset is read by the template that was saved for its source and id.
use flowstatd.Base.{ℕ, ◌+◌, ◌≤◌, ◌≡◌, arith, ◌==◌, List, done, false}
use flowstatd.Base.Words.{read_be16}
use flowstatd.Clock.{Platform}
use flowstatd.Flow.{FlowState}
use flowstatd.V9.Tables.{Tables, template_type_none}
use flowstatd.V9.Save.Saved.{SavesAs, template_index-slot}
use flowstatd.V9.Handle.{handle_template, handle_records, handle_data}

-- After `_SaveTemplate` has stored a template, `_HandleData` reads each data flowset of that source
-- and template id, in whatever packet it comes, by the template stored.
pub handle_data-save_template :
    (fuel : ℕ) (platform : Platform) (stale : ℕ → ℕ) (buf other : List ℕ)
    (source_ip source_id p id count q len : ℕ) (tables : Tables) (r : ℕ × Tables) (st : FlowState)
    → (saved : SavesAs buf source_ip source_id p id count tables r) → 256 ≤ id
    → read_be16 other q ≡ done id
    → read_be16 other (q + 2) ≡ done len
    → handle_data fuel platform stale other source_ip source_id q r.1 st
      ≡ handle_records fuel platform stale other (q + 4) len saved.entry 0 st
unfolding handle_data handle_template
handle_data-save_template fuel platform stale buf other source_ip source_id p id count q len tables
      r st saved h e_id e_len =
    let known : (saved.entry.template_type == template_type_none) ≡ false =
      ground (arith, saved.is_template) in
    rw (e_len, e_id, template_index-slot source_ip source_id id h, saved.at_entry, known)
