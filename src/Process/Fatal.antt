-- ===== src/Process/Fatal.antt =====
-- How a process dies in `Diep` or `exit`: the steps that lead there.
use flowstatd.Base.{
  ◌≤◌, ◌≡◌, refl, Bool-cases, inl, inr, true, false, List, ℕ, Option, none, some, done,
  Returns-Ends, Ends-Whenever, Whenever, Whenever-Unit, >>=-Whenever,
}
use flowstatd.Flow.{FlowState}
use flowstatd.Daemon.{Machine, Datagram, Daemon, receive}
use flowstatd.Select.{Multiplexer, is_active}
use flowstatd.Records.{export_record}
use flowstatd.Whitelist
use flowstatd.Whitelist.{load_whitelist, Loaded}
use flowstatd.Whitelist.First.{matches, first_address, IsLoaded, load_whitelist-first}
use flowstatd.Config.Strings.{Text}
use flowstatd.Update
use flowstatd.Update.{Updated, update}
use flowstatd.Loop
use flowstatd.Loop.{Sockets, Offer, Act, Served, serve_netflow, serve_command, serve}
use flowstatd.Process.Kept.{Whenever-value}
use flowstatd.Process.{Process, World, Step, iteration, accept_fails, hup, hup_ends, term}

-- Only the socket for commands is active, and `accept` fails.
abbrev IsRefused : Sockets → Multiplexer → Offer → Type 0
IsRefused s m offer =
    (is_active m s.netflow_fd ≡ false) × (is_active m s.command_fd ≡ true) × (offer.peer ≡ none)

-- What a step has met that leads to a dead process: such a failure, or SIGHUP and a configuration that cannot
-- be read.
abbrev pub IsFatal : {w : World} {p q : Process} → Step w p q → Type 0
IsFatal (iteration m offer act d d' ws real e) = Unit
IsFatal {w} (accept_fails m offer d ws e) = IsRefused w.sockets m offer
IsFatal (hup config d ws ws' file e) = Unit
IsFatal (hup_ends config d ws e) = config ≡ Whitelist.unreadable
IsFatal (term d ws) = Unit

abbrev RefusedIn : Sockets → Multiplexer → Offer → Served Act → Type 0
RefusedIn s m offer Loop.exits = IsRefused s m offer
RefusedIn s m offer (Loop.goes_on act d) = Unit

module _ (machine : Machine) (s : Sockets) (m : Multiplexer) (offer : Offer) (d : Daemon) where
  serve_netflow-RefusedIn :
      (p : Option Datagram) → Whenever (serve_netflow machine p d) (RefusedIn s m offer)
  unfolding serve_netflow
  serve_netflow-RefusedIn none = tt
  serve_netflow-RefusedIn (some p) =
      >>=-Whenever (receive machine p d) _ (λ d'. Unit {0}) (RefusedIn s m offer)
        (Whenever-Unit (receive machine p d)) λ d' _. tt

  serve_command-RefusedIn :
      (peer : Option ℕ)
      → offer.peer ≡ peer
      → is_active m s.netflow_fd ≡ false
      → is_active m s.command_fd ≡ true
      → Whenever (serve_command peer d) (RefusedIn s m offer)
  unfolding serve_command
  serve_command-RefusedIn none e quiet active = (quiet, active, e)
  serve_command-RefusedIn (some fd) e quiet active = tt

  serve-RefusedIn : Whenever (serve machine s m offer d) (RefusedIn s m offer)
  unfolding serve
  serve-RefusedIn = elim (Bool-cases (is_active m s.netflow_fd)) [
    | inl busy ↦ rw busy (serve_netflow-RefusedIn offer.datagram)
    | inr quiet ↦ elim (Bool-cases (is_active m s.command_fd)) [
      | inl active ↦ rw (quiet, active) (serve_command-RefusedIn offer.peer refl quiet active)
      | inr idle ↦ rw (quiet, idle) tt
    ]
  ]

abbrev UnreadIn : Whitelist.Config Text → Updated → Type 0
UnreadIn config Update.ends = config ≡ Whitelist.unreadable
UnreadIn config (Update.goes_on ws file) = Unit

update-UnreadIn :
    (inet_addr : Text → ℕ) (config : Whitelist.Config Text) (pad : ℕ) (st : FlowState) (ws : List ℕ)
    → ((addr : ℕ) → matches st.nets addr ≤ 1)
    → Whenever (update inet_addr config pad st ws) (UnreadIn config)
unfolding update load_whitelist
update-UnreadIn inet_addr Whitelist.unreadable pad st ws apart = refl
update-UnreadIn inet_addr Whitelist.invalid pad st ws apart = tt
update-UnreadIn inet_addr (Whitelist.entries hosts) pad st ws apart =
    >>=-Whenever (load_whitelist inet_addr st.nets (Whitelist.entries hosts) ws) _
      (IsLoaded (first_address inet_addr st.nets hosts)) (UnreadIn (Whitelist.entries hosts))
      (Ends-Whenever (load_whitelist inet_addr st.nets (Whitelist.entries hosts) ws) _ (
        Returns-Ends (load_whitelist inet_addr st.nets (Whitelist.entries hosts) ws) _
          (load_whitelist-first inet_addr st.nets apart hosts ws)))
      read
  where
    read :
        (r : Loaded)
        → IsLoaded (first_address inet_addr st.nets hosts) r
        → Whenever {A = Updated}
            (elim r [
              | Loaded.exits ↦ done Update.ends
              | Loaded.returns n ws' ↦ done (Update.goes_on ws' (export_record pad st))
            ])
            (UnreadIn (Whitelist.entries hosts))
    read Loaded.exits h = absurd h
    read (Loaded.returns n ws') h = tt

module _ (w : World) where
  pub accept_fails-IsFatal :
      (m : Multiplexer) (offer : Offer) (d : Daemon)
      → serve w.machine w.sockets m offer d ≡ done Loop.exits
      → IsRefused w.sockets m offer
  accept_fails-IsFatal m offer d e =
      Whenever-value (serve w.machine w.sockets m offer d) (RefusedIn w.sockets m offer)
        (serve-RefusedIn w.machine w.sockets m offer d) e

  pub hup_ends-IsFatal :
      (config : Whitelist.Config Text) (d : Daemon) (ws : List ℕ)
      → ((addr : ℕ) → matches d.state.flows.nets addr ≤ 1)
      → update w.inet_addr config w.pad d.state.flows ws ≡ done Update.ends
      → config ≡ Whitelist.unreadable
  hup_ends-IsFatal config d ws apart e =
      Whenever-value (update w.inet_addr config w.pad d.state.flows ws) (UnreadIn config)
        (update-UnreadIn w.inet_addr config w.pad d.state.flows ws apart) e
