-- ===== src/Config/Loaded.antt =====
-- What `LoadConfig` leaves of the networks, whether it gets to its end or not.
use flowstatd.Base.{
  ℕ, ◌≤◌, ◌≡◌, refl, ◌∙◌, arith, ltb, [], length, All, Option, none, some, Option-cases, Bool-cases,
  inl, inr, Run, done, Returns, Returns-weaken, >>=-Returns,
}
use flowstatd.Subnet.{make_subnet}
use flowstatd.Subnet.Shape.{IsValid, make_subnet-IsValid}
use flowstatd.Records.{max_subnet}
use flowstatd.Config.{
  Json, Key, System, Settings, Step, next, stop, settings_of, ◌then_step◌, words, load_data_dir,
  load_my_network, load_networks, load_stated, load_secret_key, load_bind_ip, load_netflow_port,
  load_command_port, load_daemonize, load_listen, load_command, load_logger, load_rest, load_object,
  load_config, Document,
}
use flowstatd.Config.Networks.{IsCounted, IsProper, HasPrefix, load_networks-IsCounted}

then_step-Returns :
    (m : Run Step) (f : Settings → Run Step) (P Q : Settings → Type 0)
    → Returns m (λ s. P (settings_of s))
    → ((st : Settings) → P st → Q st)
    → ((st : Settings) → P st → Returns (f st) (λ s. Q (settings_of s)))
    → Returns (m then_step f) (λ s. Q (settings_of s))
then_step-Returns (done (next st)) f P Q h weaker step = step st h
then_step-Returns (done (stop st)) f P Q h weaker step = weaker st h
then_step-Returns Run.undefined f P Q h weaker step = h
then_step-Returns Run.out_of_fuel f P Q h weaker step = h

-- A run that is no `exit`, with a property of the settings that it leaves.
abbrev pub IsSomeWith : (Settings → Type 0) → Option Settings → Type 0
IsSomeWith P none = ⊥
IsSomeWith P (some st) = P st

-- The networks and their number are as before.
abbrev SameNets : Settings → Settings → Type 0
SameNets st st' = (st'.nets ≡ st.nets) × (st'.sum_ip_count ≡ st.sum_ip_count)

SameNets-trans : (a b c : Settings) → SameNets a b → SameNets b c → SameNets a c
SameNets-trans a b c (e, z) (e', z') = (e' ∙ e, z' ∙ z)

-- No networks so far.
abbrev pub IsEmpty : Settings → Type 0
IsEmpty st = (st.nets ≡ []) × (st.sum_ip_count ≡ 0)

abbrev pub IsStated : ℕ → Settings → Type 0
IsStated least st = IsCounted least st × (length st.nets ≤ max_subnet)

module _ (system : System) where
  load_data_dir-SameNets :
      (v : Option Json) (st : Settings) → SameNets st (settings_of (load_data_dir system v st))
  unfolding load_data_dir
  load_data_dir-SameNets v st = ground arith

  load_secret_key-SameNets :
      (v : Option Json) (st : Settings) → SameNets st (settings_of (load_secret_key system v st))
  unfolding load_secret_key
  load_secret_key-SameNets v st = ground arith

  load_netflow_port-SameNets :
      (v w : Option Json) (st : Settings)
      → SameNets st (settings_of (load_netflow_port system v (load_bind_ip system w st)))
  unfolding load_netflow_port load_bind_ip
  load_netflow_port-SameNets v w st = ground arith

  load_command_port-SameNets :
      (v : Option Json) (st : Settings) → SameNets st (settings_of (load_command_port system v st))
  unfolding load_command_port
  load_command_port-SameNets v st = ground arith

  load_daemonize-SameNets :
      (v : Option Json) (st : Settings) → SameNets st (load_daemonize system v st)
  unfolding load_daemonize
  load_daemonize-SameNets v st = ground arith

  load_logger-SameNets :
      (get : Key → Option Json) (st : Settings)
      → Returns (load_logger system get st) (λ s. SameNets st (settings_of s))
  unfolding load_logger
  load_logger-SameNets get st =
      elim (Bool-cases (system.init_logger (get Key.key_log_level) (get Key.key_log_path))) [
        | inl e ↦ rw (e, load_logger) (load_daemonize-SameNets (get Key.key_daemonize) st)
        | inr e ↦ rw (e, load_logger) (refl, refl)
      ]

  load_rest-SameNets :
      (get : Key → Option Json) (st : Settings)
      → Returns (load_rest system get st) (λ s. SameNets st (settings_of s))
  unfolding load_rest load_listen load_command
  load_rest-SameNets get st =
      let key = load_secret_key system (get Key.key_secret_key) st in
      then_step-Returns
        (done key then_step load_listen system get then_step load_command system get)
        (load_logger system get) (SameNets st) (SameNets st)
        (then_step-Returns (done key then_step load_listen system get) (load_command system get)
          (SameNets st) (SameNets st)
          (then_step-Returns (done key) (load_listen system get) (SameNets st) (SameNets st)
            (load_secret_key-SameNets (get Key.key_secret_key) st) (λ st' same. same)
            (λ st' same.
              SameNets-trans st st'
                (settings_of (
                  load_netflow_port system (get Key.key_netflow_port)
                    (load_bind_ip system (get Key.key_listen_ip_addr) st')))
                same
                (load_netflow_port-SameNets (get Key.key_netflow_port) (get Key.key_listen_ip_addr)
                  st')))
          (λ st' same. same)
          (λ st' same.
            SameNets-trans st st'
              (settings_of (load_command_port system (get Key.key_command_port) st')) same
              (load_command_port-SameNets (get Key.key_command_port) st')))
        (λ st' same. same)
        (λ st' same.
          Returns-weaken (load_logger system get st') _ _ (load_logger-SameNets get st')
            (λ s later. SameNets-trans st st' (settings_of s) same later))

  -- `myNetwork` is missing or no network, or has a prefix length from 1 to 31.
  abbrev pub ProperNetwork : Option Json → Type 0
  ProperNetwork (some (Json.string text)) = HasPrefix system 1 (words system text)
  ProperNetwork v = Unit

  abbrev pub ProperStated : ℕ → Option Json → Type 0
  ProperStated least (some (Json.array elements)) = All (IsProper system least) elements
  ProperStated least v = Unit

  load_my_network-SameNets :
      (v : Option Json) (st : Settings)
      → ProperNetwork v
      → Returns (load_my_network system v st) (λ s. SameNets st (settings_of s))
  unfolding load_my_network
  load_my_network-SameNets none st proper = (refl, refl)
  load_my_network-SameNets (some (Json.integer n)) st proper = (refl, refl)
  load_my_network-SameNets (some (Json.array es)) st proper = (refl, refl)
  load_my_network-SameNets (some Json.true_value) st proper = (refl, refl)
  load_my_network-SameNets (some Json.other) st proper = (refl, refl)
  load_my_network-SameNets (some (Json.string text)) st proper =
      elim (Option-cases (words system text)) [
        | inl e ↦ rw (e, load_my_network) (refl, refl)
        | inr ((addr, bits), e) ↦
            let (from, most) : (1 ≤ bits) × (bits ≤ 31) = rw e at proper in
            rw (e, load_my_network)
              (>>=-Returns (make_subnet addr bits) _
                (λ s. IsValid s × (s.net ≡ addr) × (s.mask_bits ≡ bits)) _
                (make_subnet-IsValid addr bits from most) (λ s _. (refl, refl)))
      ]

  SameNets-IsEmpty : (st st' : Settings) → SameNets st st' → IsEmpty st → IsEmpty st'
  SameNets-IsEmpty st st' (e, z) (e', z') = (e ∙ e', z ∙ z')

  IsEmpty-IsStated : (least : ℕ) (st : Settings) → IsEmpty st → IsStated least st
  IsEmpty-IsStated least st (e, z) =
      (record { valid = rw e tt; long = rw e tt; summed = rw (e, z) refl }, rw e (omega arith))

  SameNets-IsStated :
      (least : ℕ) (st st' : Settings) → SameNets st st' → IsStated least st → IsStated least st'
  SameNets-IsStated least st st' (e, z) (c, few) =
      (record { valid = rw e c.valid; long = rw e c.long; summed = rw (e, z) c.summed }, rw e few)

  load_stated-IsStated :
      (least : ℕ) (v : Option Json) (st : Settings)
      → 1 ≤ least
      → ProperStated least v
      → IsEmpty st
      → Returns (load_stated system v st) (λ s. IsStated least (settings_of s))
  unfolding load_stated
  load_stated-IsStated least none st positive proper empty = IsEmpty-IsStated least st empty
  load_stated-IsStated least (some (Json.string t)) st positive proper empty =
      IsEmpty-IsStated least st empty
  load_stated-IsStated least (some (Json.integer n)) st positive proper empty =
      IsEmpty-IsStated least st empty
  load_stated-IsStated least (some Json.true_value) st positive proper empty =
      IsEmpty-IsStated least st empty
  load_stated-IsStated least (some Json.other) st positive proper empty =
      IsEmpty-IsStated least st empty
  load_stated-IsStated least (some (Json.array es)) st positive proper empty =
      let start = IsEmpty-IsStated least st empty in
      elim (Bool-cases (ltb max_subnet (length es))) [
        | inl many ↦ rw many start
        | inr few ↦ rw few (
            >>=-Returns (load_networks system es st) _ _ _
              (load_networks-IsCounted system least es st positive proper start.0)
              (λ st' k.
                let none_before : length st.nets ≡ 0 = rw empty.0 refl in
                (k.0, ground (arith, k.1, none_before))))
      ]

  -- If `myNetwork` is no network or has a prefix length from 1 to 31, and the elements of
  -- `statedNetworks` are no networks or have prefix lengths from `least` to 31, for a `least` above 0,
  -- then `LoadConfig` of an object returns, whichever keys are missing. It leaves at most 50 subnets, all
  -- valid with such prefix lengths, and `sumIpCount` is the number of their addresses modulo 2^32.
  pub load_config-IsStated :
      (least : ℕ) (get : Key → Option Json) (st : Settings)
      → 1 ≤ least
      → ProperNetwork (get Key.key_my_network)
      → ProperStated least (get Key.key_stated_networks)
      → IsEmpty st
      → Returns (load_config system (Document.object get) st) (IsSomeWith (IsStated least))
  unfolding load_config load_object
  load_config-IsStated least get st positive proper_net proper empty =
      let dir : Run Step = done (load_data_dir system (get Key.key_data_dir) st) in
      let my_net = load_my_network system (get Key.key_my_network) in
      let stated = load_stated system (get Key.key_stated_networks) in
      >>=-Returns (load_object system get st) _ (λ s. IsStated least (settings_of s))
        (IsSomeWith (IsStated least))
        (then_step-Returns (dir then_step my_net then_step stated) (load_rest system get)
          (IsStated least) (IsStated least)
          (then_step-Returns (dir then_step my_net) stated IsEmpty (IsStated least)
            (then_step-Returns dir (load_my_network system (get Key.key_my_network)) IsEmpty IsEmpty
              (SameNets-IsEmpty st (settings_of (load_data_dir system (get Key.key_data_dir) st))
                (load_data_dir-SameNets (get Key.key_data_dir) st) empty)
              (λ st' e. e)
              (λ st' e.
                Returns-weaken (load_my_network system (get Key.key_my_network) st') _ _
                  (load_my_network-SameNets (get Key.key_my_network) st' proper_net)
                  (λ s same. SameNets-IsEmpty st' (settings_of s) same e)))
            (IsEmpty-IsStated least)
            (λ st' e.
              load_stated-IsStated least (get Key.key_stated_networks) st' positive proper e))
          (λ st' all. all)
          (λ st' all.
            Returns-weaken (load_rest system get st') _ _ (load_rest-SameNets get st')
              (λ s same. SameNets-IsStated least st' (settings_of s) same all)))
        (λ s all. all)
