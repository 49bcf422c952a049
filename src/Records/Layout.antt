-- ===== src/Records/Layout.antt =====
-- The bytes of `struct subnet` and `struct hostflow` (src/flowstatd.h), as the x86-64 ABI lays them
-- out: 3 bytes of padding behind `maskBits`, 4 behind `sin_addr`.
use flowstatd.Base.{ℕ, zero, suc, List, [], ◌∷◌, drop}
use flowstatd.Subnet.{Subnet}
use flowstatd.Flow.{Hour, HostFlow}
use flowstatd.Records.Bytes.{put_le, get_le}

-- `sizeof(struct subnet)` and `sizeof(struct hostflow)`.
abbrev pub sizeof_subnet : ℕ
sizeof_subnet = 16

abbrev pub sizeof_hostflow : ℕ
sizeof_hostflow = 416

-- An object's bytes, before `rest`; `pad` is what its padding holds.
unfoldable pub put_subnet : ℕ → Subnet → List ℕ → List ℕ
put_subnet pad s rest =
    put_le 4 s.net
      (put_le 4 s.mask (put_le 1 s.mask_bits (put_le 3 pad (put_le 4 s.ip_count rest))))

unfoldable pub get_subnet : List ℕ → Subnet
get_subnet bytes =
    let mask = drop 4 bytes in
    let mask_bits = drop 4 mask in
    let padding = drop 1 mask_bits in
    record {
      net = get_le 4 bytes;
      mask = get_le 4 mask;
      mask_bits = get_le 1 mask_bits;
      ip_count = get_le 4 (drop 3 padding);
    }

unfoldable pub put_hours : List Hour → List ℕ → List ℕ
put_hours [] rest = rest
put_hours (h ∷ hs) rest = put_le 8 h.upload (put_le 8 h.download (put_hours hs rest))

unfoldable pub get_hours : ℕ → List ℕ → List Hour
get_hours zero bytes = []
get_hours (suc n) bytes =
    let download = drop 8 bytes in
    record { upload = get_le 8 bytes; download = get_le 8 download } ∷ get_hours n (drop 8 download)

-- The bytes behind `n` hours.
unfoldable pub drop_hours : ℕ → List ℕ → List ℕ
drop_hours zero bytes = bytes
drop_hours (suc n) bytes = drop_hours n (drop 8 (drop 8 bytes))

unfoldable pub put_host : ℕ → HostFlow → List ℕ → List ℕ
put_host pad host rest = put_le 4 host.sin_addr (
    put_le 4 pad (
      put_hours host.hflow
        (put_le 8 host.nflow.upload (put_le 8 host.nflow.download (put_le 8 host.nflow.sum rest)))))

unfoldable pub get_host : List ℕ → HostFlow
get_host bytes =
    let hours = drop 4 (drop 4 bytes) in
    let upload = drop_hours 24 hours in
    let download = drop 8 upload in
    record {
      sin_addr = get_le 4 bytes;
      hflow = get_hours 24 hours;
      nflow = record {
        upload = get_le 8 upload;
        download = get_le 8 download;
        sum = get_le 8 (drop 8 download);
      };
    }

-- Arrays.
unfoldable pub put_subnets : ℕ → List Subnet → List ℕ → List ℕ
put_subnets pad [] rest = rest
put_subnets pad (s ∷ nets) rest = put_subnet pad s (put_subnets pad nets rest)

unfoldable pub get_subnets : ℕ → List ℕ → List Subnet
get_subnets zero bytes = []
get_subnets (suc n) bytes = get_subnet bytes ∷ get_subnets n (drop sizeof_subnet bytes)

unfoldable pub put_hosts : ℕ → List HostFlow → List ℕ → List ℕ
put_hosts pad [] rest = rest
put_hosts pad (h ∷ hosts) rest = put_host pad h (put_hosts pad hosts rest)

unfoldable pub get_hosts : ℕ → List ℕ → List HostFlow
get_hosts zero bytes = []
get_hosts (suc n) bytes = get_host bytes ∷ get_hosts n (drop sizeof_hostflow bytes)
