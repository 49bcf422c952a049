-- ===== src/Tests/Commands.antt =====
-- Commands, and the theorems about them at inputs that meet their hypotheses.
use flowstatd.Base.{
  ◌≡◌, refl, arith, length-replicate, List, [], ◌∷◌, replicate, Option, none, some, false, inl, inr,
  Whenever, Returns,
}
use flowstatd.Flow.{FlowState, zero_flow}
use flowstatd.Records.Codec.{zero_flow-FitsHost}
use flowstatd.Records.{export_record, content}
use flowstatd.Config.Strings.{Text}
use flowstatd.Config.{Json}
use flowstatd.Command.{
  Field, Request, Server, strcasecmp, text_today, text_show_over_list, parse_cmd,
}
use flowstatd.Command.Secret.{IsNoKey, IsDiscreet, parse_cmd-IsDiscreet}
use flowstatd.Command.History.{today_of, parse_cmd-export_record}
use flowstatd.Command.Receive.{receive_command}
use flowstatd.Command.Receive.Filled.{concat, IsFilled, receive_command-IsFilled}
use flowstatd.Tests.Sample.{empty}
use flowstatd.Tests.Sorter.{sorter}
use flowstatd.Tests.Files.{address_of, memory, saved, saved-IsStorable}

-- `"2012-03-04"`
abbrev date : Text
date = b'2' ∷ b'0' ∷ b'1' ∷ b'2' ∷ b'-' ∷ b'0' ∷ b'3' ∷ b'-' ∷ b'0' ∷ b'4' ∷ []

abbrev pub server : Server
server = record {
  secret_key = b'k' ∷ b'e' ∷ b'y' ∷ [];
  string_at = λ addr. some [];
  whitelist = 0x0101_000a ∷ 0 ∷ [];
  sort = sorter;
  inet_addr = address_of;
  memory = memory;
  day_file = λ text. some (content (export_record 0 saved));
}

-- The addresses above one megabyte on that day, asked with a wrong key.
abbrev pub get : Field → Option Json
get Field.field_command = some (Json.string text_show_over_list)
get Field.field_date = some (Json.string date)
get Field.field_show_all = some (Json.string (b'k' ∷ []))
get Field.field_over_value = some (Json.integer 1)
get f = none

pub no_key : IsNoKey server (get Field.field_show_all)
no_key e = cc

parse_cmd-IsDiscreet_example :
    Whenever (parse_cmd server (Request.object get) empty) (IsDiscreet server.whitelist)
parse_cmd-IsDiscreet_example = parse_cmd-IsDiscreet server (inr (inl refl)) get no_key empty

other_day : strcasecmp date text_today ≡ false
unfolding strcasecmp
other_day = refl

-- A process with two subnets and one entry.
abbrev short_table : FlowState
short_table = record empty { ip_table = zero_flow ∷ [] }

parse_cmd-export_record_example :
    parse_cmd server (Request.object get) short_table
    ≡ parse_cmd server
        (Request.object (today_of get))
        (record short_table { nets = saved.nets; ip_table = saved.ip_table })
parse_cmd-export_record_example =
    parse_cmd-export_record server get text_show_over_list date 0 saved short_table refl refl
      other_day refl saved-IsStorable (zero_flow-FitsHost, tt) (λ i. zero_flow-FitsHost) refl
      (omega (arith, length-replicate 256 zero_flow))

-- A command in two pieces.
abbrev pieces : List Text
pieces = (b'{' ∷ []) ∷ (b'}' ∷ []) ∷ []

receive_command-IsFilled_example :
    Returns (receive_command pieces 0 (replicate 8192 0)) (IsFilled (concat pieces))
receive_command-IsFilled_example = receive_command-IsFilled pieces
