-- ===== src/Tests/Files.antt =====
-- Files and configurations, and the theorems about them at inputs that meet their hypotheses.
use mathlib.Core.List.Permᴰ
use flowstatd.Base.{
  ℕ, ◌≤◌, ◌≡◌, ◌≢◌, ◌∙◌, refl, sym, ap, arith, if◌then◌else◌, [], ◌∷◌, ◌++◌, length, drop,
  replicate, length-replicate, All, All-replicate, Option, none, some, true, inr, Run, done,
  Returns,
}
use flowstatd.Base.Words.{htonl}
use flowstatd.Subnet.{make_subnet}
use flowstatd.Flow.{FlowState, zero_flow}
use flowstatd.Flow.Shape.{IsBalanced, IsSound}
use flowstatd.Records.{export_record, content, Memory, returns, import_record}
use flowstatd.Records.Codec.{zero_flow-FitsHost, FitsSubnet, FitsHost}
use flowstatd.Records.RoundTrip.{IsStorable, import_record-export_record}
use flowstatd.Whitelist
use flowstatd.Whitelist.{inaddr_none}
use flowstatd.Whitelist.First.{matches}
use flowstatd.Config.Strings.{Text, skip_delimiters, word, behind_word}
use flowstatd.Command.{strcmp}
use flowstatd.Config.{
  Json, Key, Document, System, Settings, no_net, words, load_my_network, load_network,
  load_networks, load_stated, load_rest, load_object, load_config,
}
use flowstatd.Config.Networks.{IsProper}
use flowstatd.Config.Loaded.{
  IsStated, IsSomeWith, ProperNetwork, ProperStated, load_config-IsStated,
}
use flowstatd.Config.Print.{print_network, words-print_network}
use flowstatd.Start.{SubnetSort, Boot, no_settings, start}
use flowstatd.Start.Sound.{IsReady, start-IsReady}
use flowstatd.Update.{update}
use flowstatd.Update.Restart.{IsResumed, update-IsResumed}
use flowstatd.Tests.Sample.{subnet_a, empty, empty-IsSound}

abbrev pub text_a : Text
text_a = b'1' ∷ b'0' ∷ b'.' ∷ b'0' ∷ b'.' ∷ b'1' ∷ b'.' ∷ b'0' ∷ []

abbrev pub text_b : Text
text_b = b'1' ∷ b'0' ∷ b'.' ∷ b'0' ∷ b'.' ∷ b'2' ∷ b'.' ∷ b'0' ∷ []

-- Two addresses are known.
abbrev pub address_of : Text → ℕ
address_of text =
    if strcmp text text_a
    then 0x0001_000a
    else if strcmp text text_b
    then 0x0002_000a
    else inaddr_none

abbrev pub system : System
system = record {
  usable_dir = λ dir. true;
  inet_addr = address_of;
  init_logger = λ level path. true;
}

-- `"10.0.1.0/24"`
abbrev pub network_a : Text
network_a = print_network text_a 24

abbrev pub get : Key → Option Json
get Key.key_data_dir = some (Json.string [])
get Key.key_my_network = some (Json.string network_a)
get Key.key_stated_networks = some (Json.array (some network_a ∷ none ∷ []))
get key = none

text_a-known : address_of text_a ≡ 0x0001_000a
unfolding strcmp
text_a-known = refl

text_a-IsKnown : address_of text_a ≢ inaddr_none
text_a-IsKnown e =
    let absent : 0x0001_000a ≡ inaddr_none = sym text_a-known ∙ e in absurd (omega (arith, absent))

words_a : words system network_a ≡ some (0x0001_000a, 24)
unfolding strcmp words skip_delimiters word behind_word
words_a = refl

words-print_network_example : words system network_a ≡ some (address_of text_a, 24)
words-print_network_example =
    words-print_network system b'1' (b'0' ∷ b'.' ∷ b'0' ∷ b'.' ∷ b'1' ∷ b'.' ∷ b'0' ∷ []) 24
      (refl, (refl, (refl, (refl, (refl, (refl, (refl, (refl, tt)))))))) (omega arith)
      text_a-IsKnown (omega arith)

network_a-IsProper : IsProper system 8 (some network_a)
network_a-IsProper = rw words_a (omega arith, omega arith)

load_config-IsStated_example :
    Returns (load_config system (Document.object get) no_settings) (IsSomeWith (IsStated 8))
load_config-IsStated_example =
    load_config-IsStated system 8 get no_settings (omega arith)
      (rw words_a (omega arith, omega arith)) (network_a-IsProper, (tt, tt)) (refl, refl)

subnet_a-FitsSubnet : FitsSubnet subnet_a
subnet_a-FitsSubnet = record {
  net = omega arith;
  mask = omega arith;
  mask_bits = omega arith;
  ip_count = omega arith;
}

abbrev pub memory : Memory
memory = record {
  tmp_val = 0;
  pad = 0;
  spare = λ i. no_net;
  has_room = λ n. true;
  heap = λ i. zero_flow;
}

-- The counters of a day with one subnet.
abbrev pub saved : FlowState
saved = record empty { nets = subnet_a ∷ []; ip_table = replicate 256 zero_flow }

pub saved-IsStorable : IsStorable saved
saved-IsStorable = record {
  nets = (subnet_a-FitsSubnet, tt);
  few = omega arith;
  table = All-replicate FitsHost 256 zero_flow zero_flow-FitsHost;
  count = omega (arith, length-replicate 256 zero_flow);
}

pub empty-FitsHost : All FitsHost empty.ip_table
empty-FitsHost = All-replicate FitsHost 512 zero_flow zero_flow-FitsHost

-- A table with more entries than the file keeps its last ones.
import_record-export_record_example :
    import_record memory (content (export_record 0 saved)) empty
    ≡ returns 1 (record empty {
      nets = saved.nets;
      ip_table = saved.ip_table ++ drop (length saved.ip_table) empty.ip_table;
    })
import_record-export_record_example =
    import_record-export_record memory 0 saved empty saved-IsStorable empty-FitsHost
      (λ i. zero_flow-FitsHost) refl (omega (arith, length-replicate 512 zero_flow))

zero_flow-IsBalanced : IsBalanced zero_flow
zero_flow-IsBalanced = record { hours = refl; uploaded = refl; downloaded = refl; summed = refl }

pub saved-IsSound : IsSound saved
saved-IsSound = record {
  nets_valid = (empty-IsSound.nets_valid.0, tt);
  small = omega arith;
  table = record {
    size = length-replicate 256 zero_flow;
    balanced = All-replicate IsBalanced 256 zero_flow zero_flow-IsBalanced;
  };
}

-- The order of the configuration.
abbrev pub sorted : SubnetSort
sorted = record { qsort = λ nets. nets; qsort-perm = λ nets. Permᴰ.refl nets }

abbrev pub boot : Boot
boot = record {
  document = Document.object get;
  whitelist = Whitelist.entries (some text_a ∷ []);
  now = record { tm_mday = 3; tm_hour = 14 };
  file = content (export_record 0 saved);
  memory = memory;
  has_table = λ n. true;
  opens = λ st. true;
}

-- `netflowPort` is missing, so that `LoadConfig` stops before it.
abbrev pub stated : Settings
stated = record no_settings { my_net = subnet_a; nets = subnet_a ∷ []; sum_ip_count = 256 }

got : Run (Option Settings) → Settings
got (done (some st)) = st
got m = no_settings

pub load_config-stated : load_config system (Document.object get) no_settings ≡ done (some stated)
unfolding load_config load_object load_my_network words skip_delimiters behind_word strcmp word
    make_subnet load_stated load_networks load_network load_rest htonl
load_config-stated = refl

pub matches_a : (addr : ℕ) → matches (subnet_a ∷ []) addr ≤ 1
matches_a addr = ground arith

stated_unique :
    (st : Settings)
    → load_config system (Document.object get) no_settings ≡ done (some st)
    → st ≡ stated
unfolding got
stated_unique st e = sym (ap got (sym load_config-stated ∙ e))

pub network_a_proper : ProperNetwork system (get Key.key_my_network)
network_a_proper = rw words_a (omega arith, omega arith)

pub networks_proper : ProperStated system 8 (get Key.key_stated_networks)
networks_proper = (network_a-IsProper, (tt, tt))

start-IsReady_example : Returns (start system sorted boot) IsReady
start-IsReady_example =
    start-IsReady system sorted boot get (some text_a ∷ []) refl network_a_proper networks_proper
      refl (λ st e addr. rw (stated_unique st e) (matches_a addr))
      (inr (
        0,
        saved,
        refl,
        saved-IsStorable,
        saved-IsSound,
        refl,
        (λ i. zero_flow-FitsHost),
        (λ st e. rw (stated_unique st e) (omega arith)),
      ))

pub stated_some : length stated.nets ≢ 0
stated_some e = omega arith

update-IsResumed_example :
    Returns
      (update address_of (Whitelist.entries (some text_a ∷ [])) 0 saved [])
      (IsResumed system sorted boot saved)
update-IsResumed_example =
    update-IsResumed system sorted boot stated (some text_a ∷ []) 0 saved load_config-stated
      stated_some refl matches_a saved-IsStorable (omega (arith, length-replicate 256 zero_flow))
      refl (λ i. zero_flow-FitsHost) refl refl [] matches_a
