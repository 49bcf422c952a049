-- ===== src/Tests/Templates.antt =====
-- Templates, and v9 packets.
use flowstatd.Base.{
  ℕ, ◌+◌, ◌<◌, ◌≡◌, refl, inl, inr, arith, List, [], ◌∷◌, All, All-replicate, length,
  length-replicate, replicate, ◌++◌, sym, ap, Run, done, out_of_fuel, Returns, Returns-done, Ends,
}
use flowstatd.Base.Words.{read_be16}
use flowstatd.Base.Reads.{IsBytes}
use flowstatd.V9.Tables.{
  Template, Tables, init_tables, empty_template, max_templates, max_fields_in_template,
}
use flowstatd.V9.Save.{save_template, save_templates}
use flowstatd.V9.Save.Saved.{IsAllocated, SavesAs, save_template-SavesAs}
use flowstatd.V9.Handle.{handle_data, handle_records}
use flowstatd.V9.Handle.Loop.{IsWide}
use flowstatd.V9.Handle.Stuck.{handle_records_stuck}
use flowstatd.V9.Handle.Recall.{handle_data-save_template}
use flowstatd.V9.Packet.{V9State, insert_flow_entry_v9}
use flowstatd.V9.Packet.Walk.{insert_flow_entry_v9_stuck}
use flowstatd.V9.Packet.Ends.{Walk}
use flowstatd.Daemon.{Machine, Datagram, turn_hour, receive_all}
use flowstatd.Daemon.Sound.{midnights}
use flowstatd.Daemon.Ends.{IsWalked, IsWideDay, receive_all-Ends}
use flowstatd.Tests.Loops.{started, started-IsDay}
use flowstatd.Tests.Sample.{clock, empty}

-- A template with the id 256 and one field, the source address in four bytes.
abbrev template_bytes : List ℕ
template_bytes = 1 ∷ 0 ∷ 0 ∷ 1 ∷ 0 ∷ 8 ∷ 0 ∷ 4 ∷ []

template_bytes-IsBytes : IsBytes template_bytes
template_bytes-IsBytes = (
  omega arith,
  (
    omega arith,
    (omega arith, (omega arith, (omega arith, (omega arith, (omega arith, (omega arith, tt)))))),
  ),
)

init_tables-IsAllocated : IsAllocated init_tables
unfolding init_tables
init_tables-IsAllocated = record {
  templates = length-replicate max_templates empty_template;
  sources = refl;
  fields =
      All-replicate (λ t. length t.fields ≡ max_fields_in_template) max_templates empty_template
        refl;
}

bytes_id : read_be16 template_bytes 0 ≡ done 256
unfolding read_be16
bytes_id = refl

bytes_count : read_be16 template_bytes 2 ≡ done 1
unfolding read_be16
bytes_count = refl

save_template-SavesAs_example :
    Returns
      (save_template template_bytes 1 0 0 init_tables)
      (SavesAs template_bytes 1 0 0 256 1 init_tables)
save_template-SavesAs_example =
    save_template-SavesAs template_bytes 1 0 0 256 1 init_tables template_bytes-IsBytes
      init_tables-IsAllocated bytes_id bytes_count (omega arith) (omega arith)

stored :
    (r : ℕ × Tables) × (save_template template_bytes 1 0 0 init_tables ≡ done r)
    × SavesAs template_bytes 1 0 0 256 1 init_tables r
stored =
    Returns-done (save_template template_bytes 1 0 0 init_tables)
      (SavesAs template_bytes 1 0 0 256 1 init_tables)
      (save_template-SavesAs template_bytes 1 0 0 256 1 init_tables template_bytes-IsBytes
        init_tables-IsAllocated bytes_id bytes_count (omega arith) (omega arith))

-- A data flowset of that template, of 8 bytes.
abbrev data_bytes : List ℕ
data_bytes = 1 ∷ 0 ∷ 0 ∷ 8 ∷ 10 ∷ 0 ∷ 1 ∷ 7 ∷ []

data_id : read_be16 data_bytes 0 ≡ done 256
unfolding read_be16
data_id = refl

data_length : read_be16 data_bytes 2 ≡ done 8
unfolding read_be16
data_length = refl

handle_data-save_template_example :
    handle_data 9 clock (λ n. 0) data_bytes 1 0 0 (stored.0).1 empty
    ≡ handle_records 9 clock (λ n. 0) data_bytes 4 8 ((stored.2).entry) 0 empty
handle_data-save_template_example =
    handle_data-save_template 9 clock (λ n. 0) template_bytes data_bytes 1 0 0 256 1 0 8 init_tables
      (stored.0) empty (stored.2) (omega arith) data_id data_length

no_template : All IsWide init_tables.template_table
unfolding init_tables
no_template = All-replicate IsWide max_templates empty_template (inl refl)

-- 12 bytes of a header, all zero.
abbrev blank : List ℕ
blank = replicate 12 0

blank-IsBytes : IsBytes blank
blank-IsBytes = All-replicate (λ b. b < 256) 12 0 (omega arith)

abbrev fieldless : Template
fieldless = record { template_type = 1; field_count = 0; record_length = 0; fields = [] }

handle_records_stuck_example :
    handle_records 1000 clock (λ n. 0) blank 0 8 fieldless 0 empty ≡ out_of_fuel
handle_records_stuck_example =
    handle_records_stuck 1000 clock (λ n. 0) blank 0 8 fieldless empty blank-IsBytes (omega arith)
      refl refl (omega arith)

-- An options template flowset of length 0.
abbrev options_bytes : List ℕ
options_bytes = 0 ∷ 1 ∷ 0 ∷ 0 ∷ []

options_id : read_be16 options_bytes 0 ≡ done 1
unfolding read_be16
options_id = refl

options_length : read_be16 options_bytes 2 ≡ done 0
unfolding read_be16
options_length = refl

abbrev fresh : V9State
fresh = record { tables = init_tables; flows = empty }

insert_flow_entry_v9_stuck_example :
    insert_flow_entry_v9 1000 9 clock (λ n. 0) options_bytes 4 1 0 fresh ≡ out_of_fuel
insert_flow_entry_v9_stuck_example =
    insert_flow_entry_v9_stuck 1000 9 clock (λ n. 0) options_bytes 4 1 0 1 fresh (omega arith)
      options_id options_length (omega arith) (omega arith)

-- A header, a flowset of no templates, and a data flowset of no records.
abbrev packet : List ℕ
packet = 0 ∷ 9 ∷ replicate 18 0 ++ (0 ∷ 0 ∷ 0 ∷ 4 ∷ 1 ∷ 0 ∷ 0 ∷ 4 ∷ [])

packet-IsBytes : IsBytes packet
packet-IsBytes = ground arith

none_saved :
    (source_id : ℕ) (saved : Tables)
    → save_templates 65536 packet 1 source_id 20 0 0 init_tables ≡ done saved
    → saved ≡ init_tables
unfolding save_templates
none_saved source_id saved e = sym (done_injective e)
  where
    value_of : Run Tables → Tables
    value_of (done tables) = tables
    value_of m = init_tables

    done_injective : done init_tables ≡ done saved → init_tables ≡ saved
    done_injective e = ap value_of e

packet-Walk : Walk packet 28 1 20 init_tables
unfolding read_be16
packet-Walk =
    Walk.saving {p = 20} {len = 4} refl refl (omega arith) (omega arith)
      (λ source_id saved e f. rw (none_saved source_id saved f) no_template)
      (λ source_id saved e f. rw (none_saved source_id saved f) (
        Walk.past {id = 256} {len = 4} refl refl (λ same. omega arith) (omega arith)
          (Walk.over (omega arith))))

-- The inner loops have the fuel that they need.
abbrev full : Machine
full = record { fuel = 29; inner = 65536; platform = clock; stale = λ n. 0 }

-- The packet, at midnight.
abbrev nightly : Datagram
nightly = record { buf = packet; n = 28; source_ip = 1; now = record { tm_mday = 0; tm_hour = 0 } }

nightly-IsWalked : IsWalked full nightly (turn_hour nightly.now started).state
unfolding turn_hour read_be16
nightly-IsWalked = record {
  bytes = packet-IsBytes;
  nine = refl;
  walk = packet-Walk;
  enough = omega arith;
}

receive_all-Ends_example :
    Ends
      (receive_all full (nightly ∷ []) started)
      (IsWideDay (midnights started.pre_hour (nightly ∷ []) + 0))
receive_all-Ends_example =
    receive_all-Ends full (nightly ∷ []) started 0 refl (inr nightly-IsWalked, λ d' e. tt)
      (started-IsDay, no_template)
