-- ===== src/Process/Kept.antt =====
-- What every packet keeps, every process keeps: clients, SIGHUP and failed calls do not change the counters.
use flowstatd.Base.{
  ℕ, Bool-cases, inl, inr, Option, none, some, Run, done, ◌≡◌, subst, Whenever, >>=-Whenever,
}
use flowstatd.Base.Reads.{IsBytes}
use flowstatd.Daemon.{Machine, Datagram, Daemon, receive}
use flowstatd.Select.{Multiplexer, is_active}
use flowstatd.Loop
use flowstatd.Loop.{Sockets, Offer, Act, Served, serve_netflow, serve_command, serve}
use flowstatd.Process.{
  Process, running, ended, died, World, IsReal, Step, iteration, accept_fails, hup, hup_ends, term,
  Reach, here, next,
}

-- The value of a run whose values have a property.
pub Whenever-value {ℓ} :
    {A : Type ℓ} (m : Run A) (P : A → Type 0) {a : A} → Whenever m P → m ≡ done a → P a
Whenever-value m P h e = subst (λ r. Whenever r P) e h

-- No packet makes `P` false.
abbrev pub IsKept : Machine → (Daemon → Type 0) → Type 0
IsKept machine P =
    (p : Datagram) (d : Daemon) → IsBytes p.buf → P d → Whenever (receive machine p d) P

-- `P` of the state that goes on, and of the state of a running process.
abbrev Carries : (Daemon → Type 0) → Served Act → Type 0
Carries P Loop.exits = Unit
Carries P (Loop.goes_on act d) = P d

abbrev pub Holds : (Daemon → Type 0) → Process → Type 0
Holds P (running d ws) = P d
Holds P (ended rs) = Unit
Holds P died = Unit

module _ (machine : Machine) (s : Sockets) (P : Daemon → Type 0) (kept : IsKept machine P) where
  serve_netflow-Carries :
      (p : Option Datagram) (d : Daemon)
      → IsReal p
      → P d
      → Whenever (serve_netflow machine p d) (Carries P)
  unfolding serve_netflow
  serve_netflow-Carries none d real holds = holds
  serve_netflow-Carries (some p) d real holds =
      >>=-Whenever (receive machine p d) _ P (Carries P) (kept p d real holds) λ d' h. h

  serve_command-Carries :
      (fd : Option ℕ) (d : Daemon) → P d → Whenever (serve_command fd d) (Carries P)
  unfolding serve_command
  serve_command-Carries none d holds = tt
  serve_command-Carries (some fd) d holds = holds

  pub serve-Carries :
      (m : Multiplexer) (offer : Offer) (d : Daemon)
      → IsReal offer.datagram
      → P d
      → Whenever (serve machine s m offer d) (Carries P)
  unfolding serve
  serve-Carries m offer d real holds = elim (Bool-cases (is_active m s.netflow_fd)) [
    | inl busy ↦ rw busy (serve_netflow-Carries offer.datagram d real holds)
    | inr quiet ↦ elim (Bool-cases (is_active m s.command_fd)) [
      | inl called ↦ rw (quiet, called) (serve_command-Carries offer.peer d holds)
      | inr alone ↦ rw (quiet, alone) holds
    ]
  ]

module _ (w : World) (P : Daemon → Type 0) (kept : IsKept w.machine P) where
  pub Step-Holds : {p q : Process} → Step w p q → Holds P p → Holds P q
  Step-Holds (iteration m offer act d d' ws real e) holds =
      Whenever-value (serve w.machine w.sockets m offer d) (Carries P)
        (serve-Carries w.machine w.sockets P kept m offer d real holds) e
  Step-Holds (accept_fails m offer d ws e) holds = tt
  Step-Holds (hup config d ws ws' file e) holds = holds
  Step-Holds (hup_ends config d ws e) holds = tt
  Step-Holds (term d ws) holds = tt

  pub Reach-Holds : {p q : Process} → Reach w p q → Holds P p → Holds P q
  Reach-Holds here holds = holds
  Reach-Holds (next r step) holds = Step-Holds step (Reach-Holds r holds)
