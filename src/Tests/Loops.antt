-- ===== src/Tests/Loops.antt =====
-- The multiplexer, the socket, the whitelist's file and the main loop.
use flowstatd.Base.{
  ℕ, zero, suc, ◌≤◌, ◌<◌, ◌≢◌, refl, arith, leb, if◌then◌else◌, List, [], ◌∷◌, All-replicate,
  length-replicate, replicate, Option, some, done, Returns,
}
use flowstatd.Base.Words.{read_be16}
use flowstatd.Socket.{SetResult, accepted, no_buffers, bigsockbuf, send_buf_to_sock}
use flowstatd.Socket.Buffer.{IsSize, bigsockbuf_lem}
use flowstatd.Socket.Sent.{Sends, IsSent, send_buf_to_sock_lem}
use flowstatd.Whitelist.{load_whitelist, entries}
use flowstatd.Whitelist.First.{matches, IsLoaded, load_whitelist-first}
use flowstatd.Daemon.{Machine, Datagram, Daemon}
use flowstatd.Daemon.Sound.{IsSmall, IsDay}
use flowstatd.Tests.Sample.{clock, empty, empty-IsSound, two_nets}
use flowstatd.V9.Tables.{init_tables}

-- A kernel that has buffers of up to 100000 bytes.
abbrev small_kernel : ℕ → SetResult
small_kernel n = if leb n 100_000 then accepted else no_buffers

bigsockbuf_lem_example :
    Returns (bigsockbuf 200_001 small_kernel 200_000) (IsSize small_kernel 200_000)
bigsockbuf_lem_example = bigsockbuf_lem small_kernel 200_001 200_000 (omega arith)

-- A `send` that takes one byte at a time.
abbrev one_byte : ℕ → ℕ → Option ℕ
one_byte p zero = some 0
one_byte p (suc n) = some 1

one_byte-Sends : Sends one_byte
one_byte-Sends p zero k e = ground arith
one_byte-Sends p (suc n) k e = ground arith

send_buf_to_sock_lem_example : Returns (send_buf_to_sock 9 one_byte 8 0) (IsSent one_byte 8)
send_buf_to_sock_lem_example =
    send_buf_to_sock_lem one_byte 9 8 0 one_byte-Sends (omega arith) (omega arith)

two_nets_apart : (addr : ℕ) → matches two_nets addr ≤ 1
two_nets_apart addr = ground arith

-- Texts are numbers here, and each is its own address.
load_whitelist-first_example :
    Returns
      (load_whitelist
        (λ text. text)
        two_nets
        (entries (some 0x0702_000a ∷ some 0x0902_000a ∷ []))
        [])
      (IsLoaded (0x0702_000a ∷ []))
load_whitelist-first_example =
    load_whitelist-first (λ text. text) two_nets two_nets_apart
      (some 0x0702_000a ∷ some 0x0902_000a ∷ []) []

abbrev pub machine : Machine
machine = record { fuel = 9; inner = 9; platform = clock; stale = λ n. 0 }

abbrev v5_buf : List ℕ
v5_buf = 0 ∷ 5 ∷ 0 ∷ 2 ∷ replicate 8188 0

v5_buf_other : read_be16 v5_buf 0 ≢ done 9
unfolding read_be16
v5_buf_other e = ground arith

-- A packet at the given hour.
abbrev pub at_hour : ℕ → Datagram
at_hour hour = record {
  buf = v5_buf;
  n = 120;
  source_ip = 1;
  now = record { tm_mday = 0; tm_hour = hour };
}

pub at_hour-IsSmall : (hour : ℕ) → IsSmall (at_hour hour)
at_hour-IsSmall hour = record {
  bytes = (
    omega arith,
    (omega arith, (omega arith, (omega arith, All-replicate (λ b. b < 256) 8188 0 (omega arith)))),
  );
  size = omega (arith, length-replicate {A = ℕ} 8188 0);
  short = omega arith;
  other = v5_buf_other;
}

abbrev pub started : Daemon
started = record {
  state = record { tables = init_tables; flows = empty };
  pre_hour = 23;
  exported = [];
}

pub started-IsDay : IsDay 0 started
started-IsDay = record { sound = empty-IsSound; balanced = tt; count = refl }
