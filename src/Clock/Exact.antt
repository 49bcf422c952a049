-- ===== src/Clock/Exact.antt =====
-- `ftltime` computes the moment that it means, in milliseconds.
use flowstatd.Base.{ℕ, ◌+◌, ◌*◌, ◌/◌, ◌≤◌, ◌<◌, ◌≡◌, arith}
use flowstatd.Base.Words.{word32}
use flowstatd.Clock.{Fttime, ftltime}

-- The moment in milliseconds.
abbrev pub millis : Fttime → ℕ
millis ftt = ftt.secs * 1000 + ftt.msecs

-- Where the router has not been up for longer than its clock shows and the result fits, the result
-- is the router's time, less its uptime, plus the offset `t`, all in milliseconds, rounded down; and
-- the milliseconds are below 1000.
pub ftltime-millis :
    (sys secs nsecs t : ℕ)
    → sys < word32
    → secs < word32
    → nsecs < 1_000_000_000
    → t < word32
    → sys ≤ secs * 1000
    → secs * 1000 + 1000 + t < word32 * 1000
    → (millis (ftltime sys secs nsecs t) + sys ≡ secs * 1000 + nsecs / 1_000_000 + t)
      × ((ftltime sys secs nsecs t).msecs < 1000)
unfolding ftltime
ftltime-millis sys secs nsecs t h1 h2 h3 h4 h5 h6 = ground arith

-- For every input the milliseconds are below 1000 as soon as the nanoseconds are below 10^9.
pub ftltime-lt :
    (sys secs nsecs t : ℕ)
    → nsecs < 1_000_000_000
    → ((ftltime sys secs nsecs t).msecs < 1000) × ((ftltime sys secs nsecs t).secs < word32)
unfolding ftltime
ftltime-lt sys secs nsecs t h = ground arith
