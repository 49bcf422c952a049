-- ===== src/Command/History.antt =====
-- Queries about another day.
use mathlib.Core.List.{append-nil}
use flowstatd.Base.{
  drop-all, ℕ, ◌≤◌, ◌≡◌, refl, sym, arith, [], length, drop, All, Option, some, true, false,
}
use flowstatd.Flow.{FlowState}
use flowstatd.Records.{export_record, content}
use flowstatd.Records.Codec.{FitsHost}
use flowstatd.Records.RoundTrip.{IsStorable, import_record-export_record}
use flowstatd.Config.Strings.{Text}
use flowstatd.Config.{Json, string}
use flowstatd.Command.{
  Field, field_command, field_date, field_show_all, field_ip, field_over_value, field_limit, Server,
  object, strcasecmp, text_today, run_command, run_imported, run_day, run_dated, run_object,
  parse_cmd,
}

-- The same request, about today.
abbrev pub today_of : (Field → Option Json) → Field → Option Json
today_of get field_command = get field_command
today_of get field_date = some (string text_today)
today_of get field_show_all = get field_show_all
today_of get field_ip = get field_ip
today_of get field_over_value = get field_over_value
today_of get field_limit = get field_limit

run_command-today_of :
    (server : Server) (get : Field → Option Json) (cmd : Text) (st : FlowState)
    → run_command server (today_of get) cmd st ≡ run_command server get cmd st
unfolding run_command
run_command-today_of server get cmd st = refl

text_today_self : strcasecmp text_today text_today ≡ true
unfolding strcasecmp
text_today_self = refl

-- A request about another day than today whose counters `ExportRecord` wrote, where all values are of
-- their C types, the file has at most 5,162,220 entries, the process has no more entries than the file,
-- and there is memory for them, is answered as the same request about today is, by a process that has
-- the subnets and the entries of that day and no others.
pub parse_cmd-export_record :
    (server : Server) (get : Field → Option Json) (cmd date : Text) (pad : ℕ)
    (saved now : FlowState)
    → get field_command ≡ some (string cmd)
    → get field_date ≡ some (string date)
    → strcasecmp date text_today ≡ false
    → server.day_file date ≡ some (content (export_record pad saved))
    → IsStorable saved
    → All FitsHost now.ip_table
    → ((i : ℕ) → FitsHost (server.memory.heap i))
    → server.memory.has_room (length saved.ip_table) ≡ true
    → length now.ip_table ≤ length saved.ip_table
    → parse_cmd server (object get) now
      ≡ parse_cmd server
          (object (today_of get))
          (record now { nets = saved.nets; ip_table = saved.ip_table })
unfolding parse_cmd run_object run_dated run_day run_imported
parse_cmd-export_record server get cmd date pad saved now e_cmd e_date other file storable fits heap
      room covered =
    let none_left : drop (length saved.ip_table) now.ip_table ≡ [] =
      drop-all (length saved.ip_table) now.ip_table covered in
    rw
      (
        e_cmd,
        e_date,
        other,
        file,
        import_record-export_record server.memory pad saved now storable fits heap room
            (omega (arith, storable.count, covered)),
        none_left,
        append-nil saved.ip_table,
        text_today_self,
      )
      (sym (run_command-today_of server get cmd _))
