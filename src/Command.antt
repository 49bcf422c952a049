-- ===== src/Command.antt =====
-- src/command.c, `parseCmd`: a request is read, and answered by a query. It runs in a forked process, so
-- what it does to the counters is not seen again.
pub mod Secret
pub mod History
pub mod Receive
use flowstatd.Base.{
  ℕ, zero, suc, ◌+◌, ◌%◌, leb, ◌==◌, ◌&&◌, if◌then◌else◌, Bool, true, false, List, [], ◌∷◌, Option,
  none, some, Run, done, load, ◌>>=◌, ◌++◌, replicate,
}
use flowstatd.Base.Words.{word32}
use flowstatd.Flow.{FlowState}
use flowstatd.Report.{Qsort, Listing, IpReply, get_by_ip, get_by_flow, get_by_top_n}
use flowstatd.Records.Bytes.{get_le}
use flowstatd.Records.{File, Memory, Imported, import_record}
use flowstatd.Config.Strings.{Text}
use flowstatd.Config.{Json, string, integer}

abbrev lower : ℕ → ℕ
lower c = if leb b'A' c && leb c b'Z' then c + 32 else c

-- `strcasecmp(s, t) == 0` and `strcmp(s, t) == 0`
unfoldable pub strcasecmp : Text → Text → Bool
strcasecmp [] [] = true
strcasecmp (c ∷ s) (d ∷ t) = let rest = strcasecmp s t in lower c == lower d && rest
strcasecmp _ _ = false

unfoldable pub strcmp : Text → Text → Bool
strcmp [] [] = true
strcmp (c ∷ s) (d ∷ t) = let rest = strcmp s t in c == d && rest
strcmp _ _ = false

abbrev pub text_today : Text
text_today = b't' ∷ b'o' ∷ b'd' ∷ b'a' ∷ b'y' ∷ []

abbrev pub text_get_flow : Text
text_get_flow = b'g' ∷ b'e' ∷ b't' ∷ b'F' ∷ b'l' ∷ b'o' ∷ b'w' ∷ []

abbrev pub text_show_over_list : Text
text_show_over_list =
    b's' ∷ b'h' ∷ b'o' ∷ b'w' ∷ b'O' ∷ b'v' ∷ b'e' ∷ b'r' ∷ b'L' ∷ b'i' ∷ b's' ∷ b't' ∷ []

abbrev pub text_show_top_list : Text
text_show_top_list = b's' ∷ b'h' ∷ b'o' ∷ b'w' ∷ b'T' ∷ b'o' ∷ b'p' ∷ b'L' ∷ b'i' ∷ b's' ∷ b't' ∷ []

pub data Field : Type 0 where
  field_command field_date field_show_all field_ip field_over_value field_limit : Field

-- What `json_loads` and `json_is_object` make of the text that was received.
pub data Request : Type 0 where
  unparsable : Request
  not_object : Request
  object : (Field → Option Json) → Request

-- What the process has besides the counters: the text in the array `secretKey` of flowstatd.c, the text
-- that stands at an address, if it can be read there, the whitelist, `qsort`, `inet_addr`, what
-- `ImportRecord` meets in memory, and the file that belongs to a date, if `strptime` reads one.
pub record Server : Type 0 where
  pub secret_key : Text
  pub string_at : ℕ → Option Text
  pub whitelist : List ℕ
  pub sort : Qsort
  pub inet_addr : Text → ℕ
  pub memory : Memory
  pub day_file : Text → Option File

-- `retCode` and `data` of the answer.
pub data Answer : Type 0 where
  invalid_command : Answer
  no_record : Answer
  flow_of : ℕ → IpReply → Answer
  over_list : Listing → Answer
  top_list : Listing → Answer

-- `Diep` or `exit`, or the value returned and the answer sent.
pub data Replied : Type 0 where
  dies : Replied
  replies : Bool → Answer → Replied

abbrev pub invalid : Run Replied
invalid = done (replies false invalid_command)

-- command.c declares `secretKey` as a pointer: it is the first eight bytes of the array, which holds the
-- text and zeros behind it.
unfoldable pub secret_pointer : Text → ℕ
secret_pointer key = get_le 8 (key ++ replicate 8 0)

unfoldable pub is_show_all : Server → Option Json → Run Bool
is_show_all server (some (string key)) =
    load (server.string_at (secret_pointer server.secret_key)) >>= λ text. done (strcmp key text)
is_show_all server value = done false

-- The three commands.
unfoldable pub get_flow : Server → Bool → Option Json → FlowState → Run Replied
get_flow server show_all (some (string ip)) st =
    get_by_ip show_all server.whitelist (server.inet_addr ip) st >>= λ r.
    done (replies true (flow_of (server.inet_addr ip) r))
get_flow server show_all value st = invalid

-- The value is cut down to 32 bits.
unfoldable pub show_over_list : Server → Bool → Option Json → FlowState → Run Replied
show_over_list server show_all (some (integer n)) st =
    get_by_flow server.sort show_all server.whitelist (n % word32) st.ip_table >>= λ r.
    done (replies true (over_list r))
show_over_list server show_all value st = invalid

unfoldable pub show_top_list : Server → Bool → Option Json → FlowState → Run Replied
show_top_list server show_all (some (integer n)) st =
    get_by_top_n server.sort show_all server.whitelist (n % word32) st.ip_table >>= λ r.
    done (replies true (top_list r))
show_top_list server show_all value st = invalid

-- From `showAll` on.
unfoldable pub run_command : Server → (Field → Option Json) → Text → FlowState → Run Replied
run_command server get cmd st = is_show_all server (get field_show_all) >>= λ show_all.
    if strcasecmp cmd text_get_flow
    then get_flow server show_all (get field_ip) st
    else if strcasecmp cmd text_show_over_list
    then show_over_list server show_all (get field_over_value) st
    else if strcasecmp cmd text_show_top_list
    then show_top_list server show_all (get field_limit) st
    else invalid

-- The counters of another day.
unfoldable pub run_imported : Server → (Field → Option Json) → Text → Imported → Run Replied
run_imported server get cmd Imported.exits = done dies
run_imported server get cmd (Imported.returns zero st) = done (replies false no_record)
run_imported server get cmd (Imported.returns (suc n) st) = run_command server get cmd st

unfoldable pub run_day :
    Server → (Field → Option Json) → Text → Option File → FlowState → Run Replied
run_day server get cmd none st = invalid
run_day server get cmd (some file) st =
    run_imported server get cmd (import_record server.memory file st)

-- From `date` on.
unfoldable pub run_dated :
    Server → (Field → Option Json) → Text → Option Json → FlowState → Run Replied
run_dated server get cmd (some (string date)) st =
    if strcasecmp date text_today
    then run_command server get cmd st
    else run_day server get cmd (server.day_file date) st
run_dated server get cmd value st = invalid

unfoldable pub run_object : Server → (Field → Option Json) → Option Json → FlowState → Run Replied
run_object server get (some (string cmd)) st = run_dated server get cmd (get field_date) st
run_object server get value st = invalid

-- `parseCmd`
unfoldable pub parse_cmd : Server → Request → FlowState → Run Replied
parse_cmd server unparsable st = invalid
parse_cmd server not_object st = invalid
parse_cmd server (object get) st = run_object server get (get field_command) st
