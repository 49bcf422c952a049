-- ===== src/Records/Codec.antt =====
-- Reading back the bytes of a structure.
use flowstatd.Base.{
  drop-add, All-replicate, ℕ, zero, suc, ◌+◌, ◌*◌, ◌<◌, ◌≡◌, refl, ap, ◌∙◌, arith, List, [], ◌∷◌,
  length, drop, All,
}
use flowstatd.Base.Words.{word32, word64}
use flowstatd.Subnet.{Subnet}
use flowstatd.Flow.{zero_flow, Hour, HostFlow}
use flowstatd.Records.Bytes.{put_le, get_le-put_le, drop-put_le}
use flowstatd.Records.Layout.{
  sizeof_subnet, sizeof_hostflow, put_subnet, get_subnet, put_hours, get_hours, drop_hours,
  put_host, get_host, put_subnets, get_subnets, put_hosts, get_hosts,
}

-- Every field has a value of its C type.
pub record FitsSubnet (s : Subnet) : Type 0 where
  pub net : s.net < word32
  pub mask : s.mask < word32
  pub mask_bits : s.mask_bits < 256
  pub ip_count : s.ip_count < word32

abbrev pub FitsHour : Hour → Type 0
FitsHour h = (h.upload < word64) × (h.download < word64)

pub record FitsHost (host : HostFlow) : Type 0 where
  pub sin_addr : host.sin_addr < word32
  pub hours : length host.hflow ≡ 24
  pub hflow : All FitsHour host.hflow
  pub upload : host.nflow.upload < word64
  pub download : host.nflow.download < word64
  pub sum : host.nflow.sum < word64

pub get_subnet-put_subnet :
    (pad : ℕ) (s : Subnet) (rest : List ℕ) → FitsSubnet s → get_subnet (put_subnet pad s rest) ≡ s
unfolding get_subnet put_subnet
get_subnet-put_subnet pad s rest fits =
    let count = put_le 4 s.ip_count rest in
    let padding = put_le 3 pad count in
    let bits = put_le 1 s.mask_bits padding in
    let mask = put_le 4 s.mask bits in
    rw (
      drop-put_le 4 s.net mask,
      drop-put_le 4 s.mask bits,
      drop-put_le 1 s.mask_bits padding,
      drop-put_le 3 pad count,
      get_le-put_le 4 s.net mask fits.net,
      get_le-put_le 4 s.mask bits fits.mask,
      get_le-put_le 1 s.mask_bits padding fits.mask_bits,
      get_le-put_le 4 s.ip_count rest fits.ip_count,
    )

pub drop-put_subnet :
    (pad : ℕ) (s : Subnet) (rest : List ℕ) → drop sizeof_subnet (put_subnet pad s rest) ≡ rest
unfolding put_subnet put_le
drop-put_subnet pad s rest = refl

get_hours-put_hours :
    (hs : List Hour) (rest : List ℕ)
    → All FitsHour hs
    → get_hours (length hs) (put_hours hs rest) ≡ hs
unfolding get_hours put_hours
get_hours-put_hours [] rest fits = refl
get_hours-put_hours (h ∷ hs) rest ((up, down), fits) =
    let later = put_hours hs rest in
    let download = put_le 8 h.download later in
    rw (
      drop-put_le 8 h.upload download,
      drop-put_le 8 h.download later,
      get_le-put_le 8 h.upload download up,
      get_le-put_le 8 h.download later down,
      get_hours-put_hours hs rest fits,
    )

drop_hours-put_hours :
    (hs : List Hour) (rest : List ℕ) → drop_hours (length hs) (put_hours hs rest) ≡ rest
unfolding drop_hours put_hours put_le
drop_hours-put_hours [] rest = refl
drop_hours-put_hours (h ∷ hs) rest =
    let later = put_hours hs rest in
    let download = put_le 8 h.download later in
    rw (drop-put_le 8 h.upload download, drop-put_le 8 h.download later)
      (drop_hours-put_hours hs rest)

drop-drop_hours : (n : ℕ) (bytes : List ℕ) → drop (n * 16) bytes ≡ drop_hours n bytes
unfolding drop_hours
drop-drop_hours zero bytes = refl
drop-drop_hours (suc n) bytes =
    ap (λ (k : ℕ). drop k bytes) {x = suc n * 16} {y = 8 + (8 + n * 16)} (omega arith)
    ∙ drop-add 8 (8 + n * 16) bytes
    ∙ drop-add 8 (n * 16) (drop 8 bytes)
    ∙ drop-drop_hours n (drop 8 (drop 8 bytes))

pub get_host-put_host :
    (pad : ℕ) (host : HostFlow) (rest : List ℕ)
    → FitsHost host
    → get_host (put_host pad host rest) ≡ host
unfolding get_host put_host
get_host-put_host pad host rest fits =
    let sum = put_le 8 host.nflow.sum rest in
    let download = put_le 8 host.nflow.download sum in
    let upload = put_le 8 host.nflow.upload download in
    let hours = put_hours host.hflow upload in
    let padding = put_le 4 pad hours in
    let hours_eq : get_hours 24 hours ≡ host.hflow =
      rw fits.hours at (get_hours-put_hours host.hflow upload fits.hflow) in
    let skip_eq : drop_hours 24 hours ≡ upload =
      rw fits.hours at (drop_hours-put_hours host.hflow upload) in
    rw (
      drop-put_le 4 host.sin_addr padding,
      drop-put_le 4 pad hours,
      hours_eq,
      skip_eq,
      drop-put_le 8 host.nflow.upload download,
      drop-put_le 8 host.nflow.download sum,
      get_le-put_le 4 host.sin_addr padding fits.sin_addr,
      get_le-put_le 8 host.nflow.upload download fits.upload,
      get_le-put_le 8 host.nflow.download sum fits.download,
      get_le-put_le 8 host.nflow.sum rest fits.sum,
    )

drop-hostflow :
    (bytes : List ℕ)
    → drop sizeof_hostflow bytes ≡ drop 8 (drop 8 (drop 8 (drop_hours 24 (drop 4 (drop 4 bytes)))))
drop-hostflow bytes =
    let hours = drop 4 (drop 4 bytes) in
    let totals = drop_hours 24 hours in
    drop-add 4 412 bytes
    ∙ drop-add 4 408 (drop 4 bytes)
    ∙ drop-add 384 24 hours
    ∙ ap (λ (xs : List ℕ). drop 24 xs) (drop-drop_hours 24 hours)
    ∙ drop-add 8 16 totals
    ∙ drop-add 8 8 (drop 8 totals)

pub drop-put_host :
    (pad : ℕ) (host : HostFlow) (rest : List ℕ)
    → FitsHost host
    → drop sizeof_hostflow (put_host pad host rest) ≡ rest
unfolding put_host
drop-put_host pad host rest fits =
    let sum = put_le 8 host.nflow.sum rest in
    let download = put_le 8 host.nflow.download sum in
    let upload = put_le 8 host.nflow.upload download in
    let hours = put_hours host.hflow upload in
    let padding = put_le 4 pad hours in
    let skip_eq : drop_hours 24 hours ≡ upload =
      rw fits.hours at (drop_hours-put_hours host.hflow upload) in
    drop-hostflow (put_le 4 host.sin_addr padding)
    ∙ rw (
      drop-put_le 4 host.sin_addr padding,
      drop-put_le 4 pad hours,
      skip_eq,
      drop-put_le 8 host.nflow.upload download,
      drop-put_le 8 host.nflow.download sum,
      drop-put_le 8 host.nflow.sum rest,
    )

pub get_subnets-put_subnets :
    (pad : ℕ) (nets : List Subnet) (rest : List ℕ)
    → All FitsSubnet nets
    → get_subnets (length nets) (put_subnets pad nets rest) ≡ nets
unfolding get_subnets put_subnets
get_subnets-put_subnets pad [] rest fits = refl
get_subnets-put_subnets pad (s ∷ nets) rest (fit, fits) =
    let later = put_subnets pad nets rest in
    rw (
      get_subnet-put_subnet pad s later fit,
      drop-put_subnet pad s later,
      get_subnets-put_subnets pad nets rest fits,
    )

pub get_hosts-put_hosts :
    (pad : ℕ) (hosts : List HostFlow) (rest : List ℕ)
    → All FitsHost hosts
    → get_hosts (length hosts) (put_hosts pad hosts rest) ≡ hosts
unfolding get_hosts put_hosts
get_hosts-put_hosts pad [] rest fits = refl
get_hosts-put_hosts pad (h ∷ hosts) rest (fit, fits) =
    let later = put_hosts pad hosts rest in
    rw (
      get_host-put_host pad h later fit,
      drop-put_host pad h later fit,
      get_hosts-put_hosts pad hosts rest fits,
    )

-- A cleared entry.
pub zero_flow-FitsHost : FitsHost zero_flow
zero_flow-FitsHost = record {
  sin_addr = omega arith;
  hours = refl;
  hflow =
      All-replicate FitsHour 24 (record { upload = 0; download = 0 }) (omega arith, omega arith);
  upload = omega arith;
  download = omega arith;
  sum = omega arith;
}
