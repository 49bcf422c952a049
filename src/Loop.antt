-- ===== src/Loop.antt =====
-- src/flowstatd.c, `main`: the loop over the two sockets. The system calls' results are given: what `select` sets,
-- how many descriptors `Wait` reports, and what `recvfrom` and `accept` give in each iteration.
pub mod Clients
pub mod Packets
use flowstatd.Base.{ℕ, if◌then◌else◌, List, [], ◌∷◌, Option, none, some, Run, done, ◌>>=◌}
use flowstatd.Daemon.{Machine, Datagram, Daemon, receive}
use flowstatd.Select
use flowstatd.Select.{FdSet, Multiplexer, is_active, add_to_list, wait}

-- `netflowSockFd` and `flowstatdSockFd`
pub record Sockets : Type 0 where
  pub netflow_fd : ℕ
  pub command_fd : ℕ

-- The multiplexer, as the loop gets it.
unfoldable pub set_up : Sockets → Multiplexer
set_up s = add_to_list (add_to_list Select.init s.netflow_fd) s.command_fd

-- What an iteration would get: from `recvfrom` with the time behind it, and from `accept`, of which `none` is -1.
pub record Offer : Type 0 where
  pub datagram : Option Datagram
  pub peer : Option ℕ

-- What an iteration did: `recvfrom` with a datagram, `recvfrom` with an error, `accept` with a descriptor that a
-- forked process answers, or nothing.
pub data Act : Type 0 where
  packet : Datagram → Act
  no_packet : Act
  client : ℕ → Act
  idle : Act

-- `Diep`, or the state behind it.
pub data Served {ℓ} (A : Type ℓ) : Type ℓ where
  exits : Served A
  goes_on : A → Daemon → Served A

-- `recvfrom` and what follows it.
unfoldable pub serve_netflow : Machine → Option Datagram → Daemon → Run (Served Act)
serve_netflow machine none d = done (goes_on no_packet d)
serve_netflow machine (some p) d = receive machine p d >>= λ d'. done (goes_on (packet p) d')

-- `accept` and what follows it in the process that goes on.
unfoldable pub serve_command : Option ℕ → Daemon → Run (Served Act)
serve_command none d = done exits
serve_command (some fd) d = done (goes_on (client fd) d)

-- One iteration over the events.
unfoldable pub serve : Machine → Sockets → Multiplexer → Offer → Daemon → Run (Served Act)
serve machine s m offer d =
    if is_active m s.netflow_fd
    then serve_netflow machine offer.datagram d
    else if is_active m s.command_fd
    then serve_command offer.peer d
    else done (goes_on idle d)

-- Goes on with `f` unless the process has ended.
abbrev pub and_then {ℓ κ} :
    {A : Type ℓ} {B : Type κ} → Served A → (A → Daemon → Run (Served B)) → Run (Served B)
and_then exits f = done exits
and_then (goes_on a d) f = f a d

-- The iterations for `nev` events, an offer for each.
unfoldable pub serve_all :
    Machine → Sockets → Multiplexer → List Offer → Daemon → Run (Served (List Act))
serve_all machine s m [] d = done (goes_on [] d)
serve_all machine s m (offer ∷ offers) d = serve machine s m offer d >>= λ r. and_then r λ act d'.
    serve_all machine s m offers d' >>= λ r'.
    and_then r' λ acts end. done (goes_on (act ∷ acts) end)

-- What one `Wait` meets.
pub record Round : Type 0 where
  pub select : ℕ → FdSet → FdSet
  pub offers : List Offer

-- The rounds of the loop; what they did is in one list for each.
unfoldable pub main_loop :
    Machine → Sockets → Multiplexer → List Round → Daemon → Run (Served (List (List Act)))
main_loop machine s m [] d = done (goes_on [] d)
main_loop machine s m (r ∷ rs) d = serve_all machine s (wait r.select m) r.offers d >>= λ a.
    and_then a λ acts d'. main_loop machine s (wait r.select m) rs d' >>= λ b.
    and_then b λ more end. done (goes_on (acts ∷ more) end)
