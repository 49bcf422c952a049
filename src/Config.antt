-- ===== src/Config.antt =====
-- src/flowstatd.c, `LoadConfig`. jansson's object is a function from the keys that the program asks for.
pub mod Strings
pub mod Networks
pub mod Print
pub mod Loaded
use flowstatd.Base.{
  ℕ, zero, suc, ◌+◌, ◌*◌, ◌/◌, ◌%◌, ltb, ◌==◌, ◌||◌, if◌then◌else◌, Bool, true, false, List, [],
  ◌∷◌, ◌++◌, length, take, Option, none, some, Run, done, ◌>>=◌,
}
use flowstatd.Base.Words.{word16, word32}
use flowstatd.Subnet.{Subnet, make_subnet}
use flowstatd.Whitelist.{inaddr_none}
use flowstatd.Records.{max_subnet}
use flowstatd.Config.Strings.{Text, strtok, strtoul}

-- A JSON value, as far as the program looks: an integer by its 64-bit pattern, and an array by its
-- elements, of which `none` stands for one that is not a string.
pub data Json : Type 0 where
  string : Text → Json
  integer : ℕ → Json
  array : List (Option Text) → Json
  true_value : Json
  other : Json

pub data Key : Type 0 where
  key_data_dir key_my_network key_stated_networks key_secret_key key_listen_ip_addr : Key
  key_netflow_port key_command_port key_log_level key_log_path key_daemonize : Key

-- What `json_load_file` and `json_is_object` find.
pub data Document : Type 0 where
  unreadable : Document
  not_object : Document
  object : (Key → Option Json) → Document

-- What the program asks of the system and of its libraries: whether `stat` and `access` find a usable
-- directory, `inet_addr`, and whether `InitLogger` succeeds.
pub record System : Type 0 where
  pub usable_dir : Text → Bool
  pub inet_addr : Text → ℕ
  pub init_logger : Option Json → Option Json → Bool

-- What `LoadConfig` sets. `nSubnet` is the length of `nets`.
pub record Settings : Type 0 where
  pub save_prefix : Text
  pub my_net : Subnet
  pub nets : List Subnet
  pub sum_ip_count : ℕ
  pub secret_key : Text
  pub bind_ip : ℕ
  pub netflow_port : ℕ
  pub command_port : ℕ
  pub daemon_mode : ℕ

-- The next step, or `goto Exit`.
pub data Step : Type 0 where
  next : Settings → Step
  stop : Settings → Step

infixl 5 ◌then_step◌
abbrev pub ◌then_step◌ : Run Step → (Settings → Run Step) → Run Step
m then_step f = m >>= λ s. elim s [ next st ↦ f st | stop st ↦ done (stop st) ]

abbrev pub no_net : Subnet
no_net = record { net = 0; mask = 0; mask_bits = 0; ip_count = 0 }

abbrev pub settings_of : Step → Settings
settings_of (next st) = st
settings_of (stop st) = st

-- `htons` on a little-endian host.
abbrev pub htons : ℕ → ℕ
htons x = x % 256 * 256 + x / 256

module _ (system : System) where
  -- The address and the prefix length of a network, both words of the text.
  unfoldable pub words : Text → Option (ℕ × ℕ)
  unfolding strtok strtoul
  words text = elim (strtok (take 8191 text)) [
    | none ↦ none
    | some (ip, rest) ↦ elim (strtok rest) [
      | none ↦ none
      | some (mask, _) ↦
          if system.inet_addr ip == inaddr_none
          then none
          else some (system.inet_addr ip, strtoul mask % word32)
    ]
  ]

  -- [0] `dataDir`; `savePrefix` is an array of 100 bytes.
  unfoldable pub load_data_dir : Option Json → Settings → Step
  load_data_dir (some (string dir)) st =
      let st' = record st { save_prefix = take 99 dir } in
      if system.usable_dir (take 99 dir) then next st' else stop st'
  load_data_dir value st = stop st

  -- [1] `myNetwork`
  unfoldable pub load_my_network : Option Json → Settings → Run Step
  load_my_network (some (string text)) st = elim (words text) [
    | none ↦ done (stop (record st { my_net = no_net }))
    | some (addr, bits) ↦ make_subnet addr bits >>= λ s. done (next (record st { my_net = s }))
  ]
  load_my_network value st = done (stop (record st { my_net = no_net }))

  -- One element of `statedNetworks`. An element that is no network is left out.
  unfoldable pub load_network : Option Text → Settings → Run Settings
  load_network none st = done st
  load_network (some text) st = elim (words text) [
    | none ↦ done st
    | some (addr, bits) ↦ make_subnet addr bits >>= λ s. done (record st {
      nets = st.nets ++ s ∷ [];
      sum_ip_count = (st.sum_ip_count + s.ip_count) % word32;
    })
  ]

  unfoldable pub load_networks : List (Option Text) → Settings → Run Settings
  load_networks [] st = done st
  load_networks (element ∷ elements) st = load_network element st >>= load_networks elements

  -- [2] `statedNetworks`
  unfoldable pub load_stated : Option Json → Settings → Run Step
  load_stated (some (array elements)) st =
      if ltb max_subnet (length elements)
      then done (stop st)
      else load_networks elements st >>= λ st'. done (next st')
  load_stated value st = done (stop st)

  -- [3] `secretKey`, an array of 256 bytes.
  unfoldable pub load_secret_key : Option Json → Settings → Step
  load_secret_key (some (string key)) st = next (record st { secret_key = take 255 key })
  load_secret_key value st = stop st

  -- [4] `listenIpAddr`
  unfoldable pub load_bind_ip : Option Json → Settings → Settings
  load_bind_ip (some (string text)) st = record st { bind_ip = system.inet_addr text }
  load_bind_ip value st = st

  -- [5] and [6]: `htons` of the integer, which is cut down to 16 bits.
  unfoldable pub load_netflow_port : Option Json → Settings → Step
  load_netflow_port (some (integer n)) st = next (record st { netflow_port = htons (n % word16) })
  load_netflow_port value st = stop st

  unfoldable pub load_command_port : Option Json → Settings → Step
  load_command_port (some (integer n)) st = next (record st { command_port = htons (n % word16) })
  load_command_port value st = stop st

  -- [8] `daemonize`
  unfoldable pub load_daemonize : Option Json → Settings → Settings
  load_daemonize (some true_value) st = record st { daemon_mode = 1 }
  load_daemonize value st = st

  -- [4] and [5]
  unfoldable pub load_listen : (Key → Option Json) → Settings → Run Step
  unfolding load_bind_ip load_netflow_port
  load_listen get st =
      done (load_netflow_port (get key_netflow_port) (load_bind_ip (get key_listen_ip_addr) st))

  -- [6]
  unfoldable pub load_command : (Key → Option Json) → Settings → Run Step
  unfolding load_command_port
  load_command get st = done (load_command_port (get key_command_port) st)

  -- [7] and [8]
  unfoldable pub load_logger : (Key → Option Json) → Settings → Run Step
  unfolding load_daemonize
  load_logger get st =
      if system.init_logger (get key_log_level) (get key_log_path)
      then done (next (load_daemonize (get key_daemonize) st))
      else done (stop st)

  -- From `secretKey` on.
  unfoldable pub load_rest : (Key → Option Json) → Settings → Run Step
  unfolding load_secret_key
  load_rest get st =
      done (load_secret_key (get key_secret_key) st)
      then_step load_listen get
      then_step load_command get
      then_step load_logger get

  unfoldable pub load_object : (Key → Option Json) → Settings → Run Step
  unfolding load_data_dir
  load_object get st =
      done (load_data_dir (get key_data_dir) st)
      then_step load_my_network (get key_my_network)
      then_step load_stated (get key_stated_networks)
      then_step load_rest get

  -- `LoadConfig`, for the settings that it leaves; `none` is `exit`.
  unfoldable pub load_config : Document → Settings → Run (Option Settings)
  load_config unreadable st = done none
  load_config not_object st = done (some st)
  load_config (object get) st = load_object get st >>= λ s. done (some (settings_of s))
