-- ===== src/Records.antt =====
-- src/flowstatd.c, `ExportRecord` and `ImportRecord`: the counters in a file. zlib's stream is the list of
-- the bytes that were written to it.
pub mod Bytes
pub mod Limit
pub mod Layout
pub mod Kept
pub mod Codec
pub mod Overlay
pub mod RoundTrip
pub mod Lost
use flowstatd.Base.{
  ℕ, zero, suc, ◌*◌, ◌%◌, ltb, leb, if◌then◌else◌, Bool, true, false, List, [], ◌∷◌, length, take,
}
use flowstatd.Base.Words.{word32}
use flowstatd.Subnet.{Subnet}
use flowstatd.Flow.{HostFlow, FlowState}
use flowstatd.Records.Bytes.{put_le, get_le, overlay, after}
use flowstatd.Records.Layout.{
  sizeof_subnet, sizeof_hostflow, put_subnets, get_subnets, put_hosts, get_hosts,
}

abbrev pub max_subnet : ℕ
max_subnet = 50

-- The parameter `unsigned len` of `gzwrite` and `gzread` cuts a length to 32 bits, and both move nothing
-- when it is above `INT_MAX`.
unfoldable pub gz_length : ℕ → ℕ
gz_length n = if leb (n % word32) 0x7fff_ffff then n % word32 else 0

-- `ExportRecord`, for the bytes that it writes.
unfoldable pub export_record : ℕ → FlowState → List ℕ
export_record pad st = put_le 4 sizeof_subnet (
    put_le 4 (length st.nets) (
      put_le 4 sizeof_hostflow (
        put_le 4 (length st.ip_table) (
          put_subnets pad st.nets (
            take (gz_length (sizeof_hostflow * length st.ip_table))
              (put_hosts pad st.ip_table []))))))

-- What `access` and `gzopen` make of the file's name, and the bytes of the stream.
pub data File : Type 0 where
  unreadable : File
  unopened : File
  content : List ℕ → File

-- What the program does not determine: the first value of `tmpVal`, the padding, the cells of
-- `rcvNetList` behind `nSubnet`, whether `realloc` has memory, and what it leaves in new cells.
pub record Memory : Type 0 where
  pub tmp_val : ℕ
  pub pad : ℕ
  pub spare : ℕ → Subnet
  pub has_room : ℕ → Bool
  pub heap : ℕ → HostFlow

-- `Diep` or `exit`, or the returned value and the state.
pub data Imported : Type 0 where
  exits : Imported
  returns : ℕ → FlowState → Imported

-- The first `n` cells of an array that begins with the list.
unfoldable pub resize {ℓ} : {A : Type ℓ} → (ℕ → A) → ℕ → List A → List A
resize cell zero xs = []
resize cell (suc n) [] = cell n ∷ resize cell n []
resize cell (suc n) (x ∷ xs) = x ∷ resize cell n xs

-- `gzread(fpZip, &tmpVal, 4)`
unfoldable pub read_uint : ℕ → List ℕ → ℕ
read_uint old stream = get_le 4 (overlay (put_le 4 old []) stream)

unfoldable pub after_uint : ℕ → List ℕ → List ℕ
after_uint old stream = after (put_le 4 old []) stream

-- The two arrays, from a stream that stands behind the four counts.
unfoldable pub read_arrays : Memory → ℕ → ℕ → List ℕ → FlowState → FlowState
unfolding resize
read_arrays m n_subnet sum_ip_count stream st =
    let nets = put_subnets m.pad (resize m.spare n_subnet st.nets) [] in
    let table = put_hosts m.pad (resize m.heap sum_ip_count st.ip_table) [] in
    record st {
      nets = get_subnets n_subnet (overlay nets stream);
      ip_table =
          get_hosts sum_ip_count
            (overlay table (take (gz_length (sizeof_hostflow * sum_ip_count)) (after nets stream)));
    }

-- From the second pair of counts on.
unfoldable pub read_table : Memory → ℕ → ℕ → List ℕ → FlowState → Imported
read_table m n_subnet saved stream st =
    if ltb (length st.ip_table) saved
    then (if m.has_room saved then returns 1 (read_arrays m n_subnet saved stream st) else exits)
    else returns 1 (read_arrays m n_subnet (length st.ip_table) stream st)

-- `ImportRecord`. The sizes of the two structures are read and not looked at.
unfoldable pub import_record : Memory → File → FlowState → Imported
unfolding read_uint after_uint
import_record m unreadable st = returns 0 st
import_record m unopened st = exits
import_record m (content file) st =
    let size = read_uint m.tmp_val file in
    let behind_size = after_uint m.tmp_val file in
    let n_subnet = read_uint size behind_size in
    let behind_count = after_uint size behind_size in
    let size' = read_uint n_subnet behind_count in
    let behind_size' = after_uint n_subnet behind_count in
    let saved = read_uint size' behind_size' in
    let stream = after_uint size' behind_size' in
    if ltb max_subnet n_subnet then exits else read_table m n_subnet saved stream st
