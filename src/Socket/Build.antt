-- ===== src/Socket/Build.antt =====
-- src/socket.c, `BuildUDPSock` and `BuildTCPSock`: the system calls that make a socket, which are parameters.
use flowstatd.Base.{
  ℕ, ◌≡◌, refl, ap, ◌&&◌, if◌then◌else◌, Bool, true, Bool-cases, inl, inr, List, [], ◌∷◌, Option,
  none, some,
}

-- `SOCK_DGRAM` and `SOCK_STREAM`
pub data Kind : Type 0 where
  datagram : Kind
  stream : Kind

-- A call behind `socket`, with the descriptor: `setsockopt(SO_REUSEADDR)`, `bind` to an address and a port, and
-- `listen` with the length of the queue.
pub data Call : Type 0 where
  reuses : ℕ → Call
  binds : ℕ → ℕ → ℕ → Call
  listens : ℕ → ℕ → Call

-- The descriptor that `socket` gives, if it does not fail, and whether a call succeeds.
pub record Kernel : Type 0 where
  pub socket : Kind → Option ℕ
  pub succeeds : Call → Bool

-- The calls that were made behind `socket`, and the descriptor; `none` is the end by `Diep`.
pub record Built : Type 0 where
  pub calls : List Call
  pub sockfd : Option ℕ

abbrev pub diep : Built
diep = record { calls = []; sockfd = none }

-- A call, and what follows it if it succeeds.
unfoldable pub attempt : Kernel → Call → Built → Built
attempt kernel call rest =
    if kernel.succeeds call
    then record { calls = call ∷ rest.calls; sockfd = rest.sockfd }
    else record { calls = call ∷ []; sockfd = none }

-- `BuildUDPSock`, from the answer of `socket` on.
unfoldable pub build_udp_on : Kernel → ℕ → ℕ → Option ℕ → Built
build_udp_on kernel addr port none = diep
build_udp_on kernel addr port (some fd) =
    attempt kernel (binds fd addr port) (record { calls = []; sockfd = some fd })

-- `BuildUDPSock`
unfoldable pub build_udp_sock : Kernel → ℕ → ℕ → Built
build_udp_sock kernel addr port = build_udp_on kernel addr port (kernel.socket datagram)

-- `BuildTCPSock`, from the answer of `socket` on.
unfoldable pub build_tcp_on : Kernel → ℕ → ℕ → Option ℕ → Built
build_tcp_on kernel addr port none = diep
build_tcp_on kernel addr port (some fd) = attempt kernel (reuses fd) (
    attempt kernel (binds fd addr port)
      (attempt kernel (listens fd 2) (record { calls = []; sockfd = some fd })))

-- `BuildTCPSock`
unfoldable pub build_tcp_sock : Kernel → ℕ → ℕ → Built
build_tcp_sock kernel addr port = build_tcp_on kernel addr port (kernel.socket stream)

-- The calls up to the first that fails, and whether none does.
unfoldable pub until_failure : Kernel → List Call → List Call
until_failure kernel [] = []
until_failure kernel (call ∷ calls) =
    let rest = until_failure kernel calls in if kernel.succeeds call then call ∷ rest else call ∷ []

unfoldable pub all_succeed : Kernel → List Call → Bool
all_succeed kernel [] = true
all_succeed kernel (call ∷ calls) =
    let rest = all_succeed kernel calls in kernel.succeeds call && rest

-- The calls were made in this order up to the first that failed, and the descriptor is there exactly if none did.
abbrev pub IsBuilt : Kernel → List Call → ℕ → Built → Type 0
IsBuilt kernel calls fd b =
    (b.calls ≡ until_failure kernel calls)
    × (b.sockfd ≡ (if all_succeed kernel calls then some fd else none))

attempt-IsBuilt :
    (kernel : Kernel) (call : Call) (calls : List Call) (fd : ℕ) (b : Built)
    → IsBuilt kernel calls fd b
    → IsBuilt kernel (call ∷ calls) fd (attempt kernel call b)
unfolding attempt until_failure all_succeed
attempt-IsBuilt kernel call calls fd b built = elim (Bool-cases (kernel.succeeds call)) [
  | inl ok ↦ rw ok (ap (λ (cs : List Call). call ∷ cs) built.0, built.1)
  | inr bad ↦ rw bad (refl, refl)
]

-- The last step of both.
all_made-IsBuilt :
    (kernel : Kernel) (fd : ℕ) → IsBuilt kernel [] fd (record { calls = []; sockfd = some fd })
unfolding until_failure all_succeed
all_made-IsBuilt kernel fd = (refl, refl)

-- When `socket` gives descriptors, the sockets of the packets and of the commands are made by these calls in this
-- order, up to the first that fails: the first one is bound; the second one may reuse its address, is bound, and
-- listens with room for two. A descriptor is returned exactly if no call fails, and the process ends otherwise.
pub build_sock-IsBuilt :
    (kernel : Kernel) (addr port fd fd' : ℕ)
    → kernel.socket datagram ≡ some fd
    → kernel.socket stream ≡ some fd'
    → IsBuilt kernel (binds fd addr port ∷ []) fd (build_udp_sock kernel addr port)
      × IsBuilt kernel
          (reuses fd' ∷ binds fd' addr port ∷ listens fd' 2 ∷ [])
          fd'
          (build_tcp_sock kernel addr port)
unfolding build_udp_sock build_tcp_sock build_udp_on build_tcp_on
build_sock-IsBuilt kernel addr port fd fd' e e' =
    let udp = attempt-IsBuilt kernel (binds fd addr port) [] fd _ (all_made-IsBuilt kernel fd) in
    let tcp = attempt-IsBuilt kernel (reuses fd') _ fd' _ (
      attempt-IsBuilt kernel (binds fd' addr port) _ fd' _
        (attempt-IsBuilt kernel (listens fd' 2) [] fd' _ (all_made-IsBuilt kernel fd'))) in
    rw (e, e') (udp, tcp)
