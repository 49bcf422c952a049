-- ===== src/Clock.antt =====
-- src/fttime.c, and `ConvertNfTime` of src/netflow.c: the time at which a flow began.
pub mod Exact
use flowstatd.Base.{ℕ, ◌+◌, ◌-◌, ◌*◌, ◌/◌, ◌%◌, ◌<◌, ltb, leb, if◌then◌else◌}
use flowstatd.Base.Words.{word32}

-- `struct fttime`.
pub record Fttime : Type 0 where
  pub secs : ℕ
  pub msecs : ℕ

-- `NfTimeInfo_t`.
pub record NfTimeInfo : Type 0 where
  pub sys_uptime : ℕ
  pub unix_secs : ℕ
  pub unix_nsecs : ℕ
  pub first_packet_time : ℕ

-- `x + y` and `x - y` on `uint32_t`.
abbrev pub add32 : ℕ → ℕ → ℕ
add32 x y = (x + y) % word32

abbrev pub sub32 : ℕ → ℕ → ℕ
sub32 x y = (x + word32 - y) % word32

-- "borrow a second?"
unfoldable pub borrow : ℕ → Fttime → Fttime
borrow sys_m ftt =
    if ltb ftt.msecs sys_m
    then record { secs = sub32 ftt.secs 1; msecs = add32 ftt.msecs 1000 }
    else ftt

-- "fix if milliseconds >= 1000"
unfoldable pub carry : Fttime → Fttime
carry ftt =
    if leb 1000 ftt.msecs
    then record { secs = add32 ftt.secs 1; msecs = sub32 ftt.msecs 1000 }
    else ftt

unfoldable pub ftltime : ℕ → ℕ → ℕ → ℕ → Fttime
unfolding borrow carry
ftltime sys secs nsecs t =
    let sys_s = sys / 1000 in
    let sys_m = sys % 1000 in
    let ftt = borrow sys_m (record { secs = sub32 secs sys_s; msecs = nsecs / 1000000 }) in
    carry (record {
      secs = add32 ftt.secs (t / 1000);
      msecs = add32 (sub32 ftt.msecs sys_m) (t % 1000);
    })

-- The width of `time_t` on the platform.
pub data TimeWidth : Type 0 where
  bits32 : TimeWidth
  bits64 : TimeWidth

-- `*(time_t *) &ftt.secs`: with a `time_t` of eight bytes the read covers `msecs` too.
unfoldable pub read_time : TimeWidth → Fttime → ℕ
read_time bits32 ftt = ftt.secs
read_time bits64 ftt = ftt.secs + ftt.msecs * word32

-- The fields of `struct tm` that the program reads here.
pub record Tm : Type 0 where
  pub tm_mday : ℕ
  pub tm_hour : ℕ

-- What the platform gives: the width of `time_t`, and `localtime_r`, whose hours run from 0 to 23.
pub record Platform : Type 0 where
  pub time_width : TimeWidth
  pub localtime : ℕ → Tm
  pub hour-lt : (t : ℕ) → (localtime t).tm_hour < 24

unfoldable pub convert_nf_time : Platform → NfTimeInfo → Tm
unfolding ftltime read_time
convert_nf_time platform info = platform.localtime (
    read_time platform.time_width
      (ftltime info.sys_uptime info.unix_secs info.unix_nsecs info.first_packet_time))
