-- ===== src/Records/Limit.antt =====
-- The length of the table's bytes, and what `gzwrite` and `gzread` take of it.
use flowstatd.Base.{
  take-all, ℕ, zero, suc, ◌+◌, ◌*◌, ◌/◌, ◌≤◌, ◌≡◌, refl, arith, List, [], ◌∷◌, length, take, All,
}
use flowstatd.Flow.{Hour, HostFlow}
use flowstatd.Records.{gz_length}
use flowstatd.Records.Bytes.{put_le}
use flowstatd.Records.Layout.{sizeof_hostflow, put_hours, put_host, put_hosts}
use flowstatd.Records.Codec.{FitsHost}

-- The most entries whose length `gzwrite` accepts as it is.
abbrev pub max_stored : ℕ
max_stored = 5_162_220

length-put_le : (n x : ℕ) (rest : List ℕ) → length (put_le n x rest) ≡ n + length rest
unfolding put_le
length-put_le zero x rest = omega arith
length-put_le (suc n) x rest = omega (arith, length-put_le n (x / 256) rest)

length-put_hours :
    (hs : List Hour) (rest : List ℕ) → length (put_hours hs rest) ≡ length hs * 16 + length rest
unfolding put_hours
length-put_hours [] rest = omega arith
length-put_hours (h ∷ hs) rest =
    let later = put_hours hs rest in
    let download = put_le 8 h.download later in
    omega (
      arith,
      length-put_le 8 h.upload download,
      length-put_le 8 h.download later,
      length-put_hours hs rest,
    )

length-put_host :
    (pad : ℕ) (host : HostFlow) (rest : List ℕ)
    → FitsHost host
    → length (put_host pad host rest) ≡ sizeof_hostflow + length rest
unfolding put_host
length-put_host pad host rest fits =
    let sum = put_le 8 host.nflow.sum rest in
    let download = put_le 8 host.nflow.download sum in
    let upload = put_le 8 host.nflow.upload download in
    let hours = put_hours host.hflow upload in
    omega (
      arith,
      length-put_le 4 host.sin_addr (put_le 4 pad hours),
      length-put_le 4 pad hours,
      length-put_hours host.hflow upload,
      fits.hours,
      length-put_le 8 host.nflow.upload download,
      length-put_le 8 host.nflow.download sum,
      length-put_le 8 host.nflow.sum rest,
    )

pub length-put_hosts :
    (pad : ℕ) (hosts : List HostFlow)
    → All FitsHost hosts
    → length (put_hosts pad hosts []) ≡ sizeof_hostflow * length hosts
unfolding put_hosts
length-put_hosts pad [] fits = refl
length-put_hosts pad (h ∷ hosts) (fit, fits) =
    omega
      (arith, length-put_host pad h (put_hosts pad hosts []) fit, length-put_hosts pad hosts fits)

gz_length_small : (n : ℕ) → n ≤ 0x7fff_ffff → gz_length n ≡ n
unfolding gz_length
gz_length_small n h = ground arith

-- A length that is not cut covers the entries.
pub take-gz_length :
    (pad count : ℕ) (hosts : List HostFlow)
    → All FitsHost hosts
    → length hosts ≤ count
    → count ≤ max_stored
    → take (gz_length (sizeof_hostflow * count)) (put_hosts pad hosts []) ≡ put_hosts pad hosts []
take-gz_length pad count hosts fits most few =
    rw (gz_length_small (sizeof_hostflow * count) (omega arith)) (
      take-all (sizeof_hostflow * count) (put_hosts pad hosts [])
        (omega (arith, length-put_hosts pad hosts fits)))
