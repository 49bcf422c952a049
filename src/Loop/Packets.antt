-- ===== src/Loop/Packets.antt =====
-- The packets that the loop takes, in their order.
use flowstatd.Base.{
  ℕ, ◌+◌, ◌≡◌, refl, subst, Bool-cases, inl, inr, List, [], ◌∷◌, ◌++◌, All, Option, none, some, Run,
  done, undefined, out_of_fuel, ◌>>=◌, Returns, Returns-weaken, Returns-done, ◌∙◌,
}
use flowstatd.Daemon.{Machine, Datagram, Daemon, receive, receive_all}
use flowstatd.Daemon.Sound.{IsSmall, IsDay, midnights, receive-IsDay, receive_all-IsDay}
use flowstatd.Select.{Multiplexer, is_active, wait}
use flowstatd.Loop.{
  Sockets, Offer, Act, packet, no_packet, client, idle, Served, exits, goes_on, serve_netflow,
  serve_command, serve, and_then, serve_all, Round, main_loop,
}

-- The datagram that an iteration took.
abbrev pub taken : Act → List Datagram
taken (packet p) = p ∷ []
taken no_packet = []
taken (client fd) = []
taken idle = []

-- Those of a round, and those of all rounds.
abbrev pub taken_in : List Act → List Datagram
taken_in [] = []
taken_in (act ∷ acts) = taken act ++ taken_in acts

abbrev pub all_taken : List (List Act) → List Datagram
all_taken [] = []
all_taken (acts ∷ more) = taken_in acts ++ all_taken more

module _ {ℓ κ} {A : Type ℓ} (P : A → Type κ) where
  All-append : (xs ys : List A) → All P xs → All P ys → All P (xs ++ ys)
  All-append [] ys h k = k
  All-append (x ∷ xs) ys h k = (h.0, All-append xs ys h.1 k)

receive_all_append :
    (machine : Machine) (ps qs : List Datagram) (d : Daemon)
    → receive_all machine (ps ++ qs) d ≡ (receive_all machine ps d >>= receive_all machine qs)
unfolding receive_all
receive_all_append machine [] qs d = refl
receive_all_append machine (p ∷ ps) qs d =
    after (receive machine p d) (λ d'. receive_all_append machine ps qs d')
  where
    after :
        (m : Run Daemon)
        → ((d' : Daemon)
            → receive_all machine (ps ++ qs) d'
              ≡ (receive_all machine ps d' >>= receive_all machine qs))
        → (m >>= receive_all machine (ps ++ qs))
          ≡ (m >>= receive_all machine ps >>= receive_all machine qs)
    after (done d') rest = rest d'
    after undefined rest = refl
    after out_of_fuel rest = refl

-- Receiving `ps` leads from `d` to a sound state `d'`.
record IsLed (machine : Machine) (ps : List Datagram) (d d' : Daemon) : Type 0 where
  written : ℕ
  day : IsDay written d'
  small : All IsSmall ps
  same : receive_all machine ps d ≡ done d'

-- The process goes on, and what `f` tells it has taken led to its state.
abbrev IsFed {ℓ} : {A : Type ℓ} → Machine → (A → List Datagram) → Daemon → Served A → Type 0
IsFed machine f d exits = ⊥
IsFed machine f d (goes_on a d') = IsLed machine (f a) d d'

and_then-Returns {ℓ κ} :
    {A : Type ℓ} {B : Type κ} (machine : Machine) (f : A → List Datagram) (d : Daemon)
    (P : Served B → Type 0) (m : Run (Served A)) (k : A → Daemon → Run (Served B))
    → Returns m (IsFed machine f d)
    → ((a : A) (d' : Daemon) → IsLed machine (f a) d d' → Returns (k a d') P)
    → Returns (m >>= λ r. and_then r k) P
and_then-Returns machine f d P (done exits) k h next = absurd h
and_then-Returns machine f d P (done (goes_on a d')) k h next = next a d' h
and_then-Returns machine f d P undefined k h next = absurd h
and_then-Returns machine f d P out_of_fuel k h next = absurd h

IsLed-append :
    (machine : Machine) (ps qs : List Datagram) (d d' end : Daemon)
    → IsLed machine ps d d'
    → IsLed machine qs d' end
    → IsLed machine (ps ++ qs) d end
IsLed-append machine ps qs d d' end first next = record {
  written = next.written;
  day = next.day;
  small = All-append IsSmall ps qs first.small next.small;
  same = receive_all_append machine ps qs d ∙ rw first.same next.same;
}

IsLed-[] : (machine : Machine) (n : ℕ) (d : Daemon) → IsDay n d → IsLed machine [] d d
unfolding receive_all
IsLed-[] machine n d day = record { written = n; day = day; small = tt; same = refl }

-- Each packet that the iteration would take is in its buffer, of at most 169 records, and not of version 9, and
-- `accept` gives a descriptor.
abbrev pub IsFine : Option Datagram → Type 0
IsFine none = Unit
IsFine (some p) = IsSmall p

pub record IsGiven (offer : Offer) : Type 0 where
  pub fine : IsFine offer.datagram
  pub fd : ℕ
  pub asked : offer.peer ≡ some fd

serve_netflow-IsFed :
    (machine : Machine) (p : Option Datagram) (d : Daemon) (n : ℕ)
    → IsFine p
    → IsDay n d
    → Returns (serve_netflow machine p d) (IsFed machine taken d)
unfolding serve_netflow receive_all
serve_netflow-IsFed machine none d n fine day = IsLed-[] machine n d day
serve_netflow-IsFed machine (some p) d n fine day =
    let (d', e, k) = Returns-done (receive machine p d) _ (receive-IsDay machine p d n fine day) in
    rw e (record { written = _; day = k.0; small = (fine, tt); same = rw e refl })

serve-IsFed :
    (machine : Machine) (s : Sockets) (m : Multiplexer) (offer : Offer) (d : Daemon) (n : ℕ)
    → IsGiven offer
    → IsDay n d
    → Returns (serve machine s m offer d) (IsFed machine taken d)
unfolding serve serve_command
serve-IsFed machine s m offer d n given day = elim (Bool-cases (is_active m s.netflow_fd)) [
  | inl busy ↦ rw busy (serve_netflow-IsFed machine offer.datagram d n given.fine day)
  | inr quiet ↦ elim (Bool-cases (is_active m s.command_fd)) [
    | inl called ↦ rw (quiet, called, given.asked) (IsLed-[] machine n d day)
    | inr alone ↦ rw (quiet, alone) (IsLed-[] machine n d day)
  ]
]

serve_all-IsFed :
    (machine : Machine) (s : Sockets) (m : Multiplexer) (offers : List Offer) (d : Daemon) (n : ℕ)
    → All IsGiven offers
    → IsDay n d
    → Returns (serve_all machine s m offers d) (IsFed machine taken_in d)
unfolding serve_all
serve_all-IsFed machine s m [] d n given day = IsLed-[] machine n d day
serve_all-IsFed machine s m (offer ∷ offers) d n given day =
    and_then-Returns machine taken d _ (serve machine s m offer d) _
      (serve-IsFed machine s m offer d n given.0 day)
      λ act d' led.
        and_then-Returns machine taken_in d' _ (serve_all machine s m offers d') _
          (serve_all-IsFed machine s m offers d' led.written given.1 led.day)
          λ acts end more. IsLed-append machine (taken act) (taken_in acts) d d' end led more

-- What the loop does is what the packets that it took do.
abbrev pub IsServed : Machine → ℕ → Daemon → Served (List (List Act)) → Type 0
IsServed machine n d exits = ⊥
IsServed machine n d (goes_on acts end) =
    (receive_all machine (all_taken acts) d ≡ done end)
    × IsDay (midnights d.pre_hour (all_taken acts) + n) end

main_loop-IsFed :
    (machine : Machine) (s : Sockets) (m : Multiplexer) (rounds : List Round) (d : Daemon) (n : ℕ)
    → All (λ r. All IsGiven r.offers) rounds
    → IsDay n d
    → Returns (main_loop machine s m rounds d) (IsFed machine all_taken d)
unfolding main_loop
main_loop-IsFed machine s m [] d n given day = IsLed-[] machine n d day
main_loop-IsFed machine s m (r ∷ rounds) d n given day =
    and_then-Returns machine taken_in d _ (serve_all machine s (wait r.select m) r.offers d) _
      (serve_all-IsFed machine s (wait r.select m) r.offers d n given.0 day)
      λ acts d' led.
        and_then-Returns machine all_taken d' _ (main_loop machine s (wait r.select m) rounds d') _
          (main_loop-IsFed machine s (wait r.select m) rounds d' led.written given.1 led.day)
          λ more end rest. IsLed-append machine (taken_in acts) (all_taken more) d d' end led rest

-- With sound counters, over rounds in which `select` sets what it will, no packet is of version 9 or has more
-- than 169 records, and no `accept` fails, the loop goes on. It ends as if it had received the packets that
-- it took, one by one in their order, so that it has given one table to `ExportRecord` for each time that the hour of these packets
-- goes from 23 to 0, and clients have changed nothing.
pub main_loop-IsServed :
    (machine : Machine) (s : Sockets) (m : Multiplexer) (rounds : List Round) (d : Daemon) (n : ℕ)
    → All (λ r. All IsGiven r.offers) rounds
    → IsDay n d
    → Returns (main_loop machine s m rounds d) (IsServed machine n d)
main_loop-IsServed machine s m rounds d n given day =
    Returns-weaken (main_loop machine s m rounds d) _ _
      (main_loop-IsFed machine s m rounds d n given day) told
  where
    told : (r : Served (List (List Act))) → IsFed machine all_taken d r → IsServed machine n d r
    told exits h = h
    told (goes_on acts end) led =
        let counted : Returns (receive_all machine (all_taken acts) d)
            (IsDay (midnights d.pre_hour (all_taken acts) + n)) =
          receive_all-IsDay machine (all_taken acts) d n led.small day in
        (
          led.same,
          subst (λ m. Returns m (IsDay (midnights d.pre_hour (all_taken acts) + n))) led.same
              counted,
        )
