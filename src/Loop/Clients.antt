-- ===== src/Loop/Clients.antt =====
-- Who is served in a round of the loop.
use flowstatd.Base.{
  ℕ, suc, ◌≡◌, refl, arith, true, false, List, [], ◌∷◌, map, length, All, Option, none, some, done,
  ◌>>=◌, Whenever, >>=-Whenever, Whenever-Unit, ◌∙◌, ap,
}
use mathlib.Core.Path.{fun_ext}
use flowstatd.Daemon.{Machine, Datagram, Daemon, receive}
use flowstatd.Select
use flowstatd.Select.{FdSet, Multiplexer, is_active, add_to_list, wait}
use flowstatd.Select.Bound.{
  Selects, IsBounded, init-IsBounded, add_to_list-IsBounded, is_active-wait,
}
use flowstatd.Loop.{
  Sockets, set_up, Offer, Act, packet, no_packet, client, idle, Served, exits, goes_on,
  serve_netflow, serve_command, serve, and_then, serve_all,
}

set_up-IsBounded : (s : Sockets) → IsBounded (set_up s)
unfolding set_up
set_up-IsBounded s =
    add_to_list-IsBounded (add_to_list Select.init s.netflow_fd) s.command_fd
      (add_to_list-IsBounded Select.init s.netflow_fd init-IsBounded)

set_up-evlist :
    (s : Sockets)
    → ((set_up s).evlist s.netflow_fd ≡ true) × ((set_up s).evlist s.command_fd ≡ true)
unfolding set_up Select.add_to_list
set_up-evlist s = (ground arith, ground arith)

-- The sets of the multiplexer are the ones that `set_up` made.
abbrev pub IsSetUp : Sockets → Multiplexer → Type 0
IsSetUp s m = IsBounded m × (m.evlist s.netflow_fd ≡ true) × (m.evlist s.command_fd ≡ true)

pub wait-IsSetUp :
    (s : Sockets) (select : ℕ → FdSet → FdSet) (m : Multiplexer)
    → IsSetUp s m
    → IsSetUp s (wait select m)
unfolding wait
wait-IsSetUp s select m (bounded, on, too) = (bounded, on, too)

-- A socket is active exactly if it is ready.
module _ (s : Sockets) (ready : FdSet) (select : ℕ → FdSet → FdSet) (law : Selects ready select)
    (m : Multiplexer) (is_set : IsSetUp s m) where
  pub is_active-netflow : is_active (wait select m) s.netflow_fd ≡ ready s.netflow_fd
  is_active-netflow = is_active-wait m ready select s.netflow_fd is_set.0 law ∙ rw is_set.1 refl

  pub is_active-command : is_active (wait select m) s.command_fd ≡ ready s.command_fd
  is_active-command = is_active-wait m ready select s.command_fd is_set.0 law ∙ rw is_set.2 refl

-- The offers of a round, in each of which `accept` gives a descriptor.
abbrev pub clients : List ℕ → List (Option Datagram) → List Offer
clients [] ps = []
clients (fd ∷ fds) [] = record { datagram = none; peer = some fd } ∷ clients fds []
clients (fd ∷ fds) (p ∷ ps) = record { datagram = p; peer = some fd } ∷ clients fds ps

serve_all-client :
    (machine : Machine) (s : Sockets) (m : Multiplexer) (fds : List ℕ) (ps : List (Option Datagram))
    (d : Daemon)
    → is_active m s.netflow_fd ≡ false
    → is_active m s.command_fd ≡ true
    → serve_all machine s m (clients fds ps) d ≡ done (goes_on (map client fds) d)
unfolding serve_all serve serve_command
serve_all-client machine s m [] ps d quiet asked = refl
serve_all-client machine s m (fd ∷ fds) [] d quiet asked =
    rw (quiet, asked, serve_all-client machine s m fds [] d quiet asked) refl
serve_all-client machine s m (fd ∷ fds) (p ∷ ps) d quiet asked =
    rw (quiet, asked, serve_all-client machine s m fds ps d quiet asked) refl

-- No client is accepted, and nothing is idle.
abbrev pub IsPacket : Act → Type 0
IsPacket (packet p) = Unit
IsPacket no_packet = Unit
IsPacket (client fd) = ⊥
IsPacket idle = ⊥

-- Every offer was taken by a call of `recvfrom`.
abbrev pub IsStarved : ℕ → Served (List Act) → Type 0
IsStarved n exits = ⊥
IsStarved n (goes_on acts d) = All IsPacket acts × (length acts ≡ n)

abbrev TookPacket : Served Act → Type 0
TookPacket exits = ⊥
TookPacket (goes_on act d) = IsPacket act

serve_netflow-TookPacket :
    (machine : Machine) (p : Option Datagram) (d : Daemon)
    → Whenever (serve_netflow machine p d) TookPacket
unfolding serve_netflow
serve_netflow-TookPacket machine none d = tt
serve_netflow-TookPacket machine (some p) d =
    >>=-Whenever (receive machine p d) _ (λ d'. Unit {0}) TookPacket
      (Whenever-Unit (receive machine p d)) λ d' u. tt

serve_all-IsStarved :
    (machine : Machine) (s : Sockets) (m : Multiplexer) (offers : List Offer) (d : Daemon)
    → is_active m s.netflow_fd ≡ true
    → Whenever (serve_all machine s m offers d) (IsStarved (length offers))
unfolding serve_all serve
serve_all-IsStarved machine s m [] d busy = (tt, refl)
serve_all-IsStarved machine s m (offer ∷ offers) d busy = rw busy (
    >>=-Whenever (serve_netflow machine offer.datagram d) _ TookPacket
      (IsStarved (suc (length offers))) (serve_netflow-TookPacket machine offer.datagram d)
      (after λ d'. serve_all-IsStarved machine s m offers d' busy))
  where
    longer :
        (act : Act) (rest : Served (List Act))
        → IsPacket act
        → IsStarved (length offers) rest
        → Whenever
            (and_then rest λ acts end. done (goes_on (act ∷ acts) end))
            (IsStarved (suc (length offers)))
    longer act exits first h = absurd h
    longer act (goes_on acts end) first h = ((first, h.0), ap suc h.1)

    after :
        ((d' : Daemon) → Whenever (serve_all machine s m offers d') (IsStarved (length offers)))
        → (r : Served Act) → TookPacket r
        → Whenever
            (and_then r λ act d'. serve_all machine s m offers d' >>= λ r'.
              and_then r' λ acts end. done (goes_on (act ∷ acts) end))
            (IsStarved (suc (length offers)))
    after rest exits took = absurd took
    after rest (goes_on act d') took =
        >>=-Whenever (serve_all machine s m offers d') _ (IsStarved (length offers)) _ (rest d')
          λ r' h. longer act r' took h

-- An offer without its descriptor.
abbrev pub unasked : Offer → Offer
unasked offer = record { datagram = offer.datagram; peer = none }

serve_all-unasked :
    (machine : Machine) (s : Sockets) (m : Multiplexer) (offers : List Offer) (d : Daemon)
    → is_active m s.netflow_fd ≡ true
    → serve_all machine s m offers d ≡ serve_all machine s m (map unasked offers) d
unfolding serve_all serve
serve_all-unasked machine s m [] d busy = refl
serve_all-unasked machine s m (offer ∷ offers) d busy =
    let rest : (d' : Daemon)
        → serve_all machine s m offers d' ≡ serve_all machine s m (map unasked offers) d' =
      λ d'. serve_all-unasked machine s m offers d' busy in
    rw (busy, fun_ext rest) refl

module _ (machine : Machine) (s : Sockets) (ready : FdSet) (select : ℕ → FdSet → FdSet)
    (law : Selects ready select) (m : Multiplexer) (is_set : IsSetUp s m) where
  -- `select` is as POSIX says, and both sockets are monitored. When the command socket is ready and the other one is
  -- not, every iteration of the round accepts a client, in the order of their descriptors, and the counters stay as
  -- they are, whatever packets would have come.
  pub serve_all_quiet :
      (fds : List ℕ) (ps : List (Option Datagram)) (d : Daemon)
      → ready s.netflow_fd ≡ false
      → ready s.command_fd ≡ true
      → serve_all machine s (wait select m) (clients fds ps) d ≡ done (goes_on (map client fds) d)
  serve_all_quiet fds ps d quiet asked =
      serve_all-client machine s (wait select m) fds ps d
        (is_active-netflow s ready select law m is_set ∙ quiet)
        (is_active-command s ready select law m is_set ∙ asked)

  -- `select` is as POSIX says, and both sockets are monitored. When the socket of the packets is ready, the round
  -- ends as if no client could be accepted, also when the command socket is ready: if it comes back, each of its
  -- iterations has called `recvfrom`, the one for the event of the command socket too.
  pub serve_all_busy :
      (offers : List Offer) (d : Daemon)
      → ready s.netflow_fd ≡ true
      → (serve_all machine s (wait select m) offers d
          ≡ serve_all machine s (wait select m) (map unasked offers) d)
        × Whenever (serve_all machine s (wait select m) offers d) (IsStarved (length offers))
  serve_all_busy offers d busy =
      let on = is_active-netflow s ready select law m is_set ∙ busy in
      (
        serve_all-unasked machine s (wait select m) offers d on,
        serve_all-IsStarved machine s (wait select m) offers d on,
      )

pub set_up-IsSetUp : (s : Sockets) → IsSetUp s (set_up s)
set_up-IsSetUp s = (set_up-IsBounded s, (set_up-evlist s).0, (set_up-evlist s).1)
