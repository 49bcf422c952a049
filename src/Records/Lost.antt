-- ===== src/Records/Lost.antt =====
-- A table whose bytes are more than `gzwrite` takes.
use flowstatd.Base.{ℕ, ◌*◌, ◌≤◌, ◌<◌, ◌≡◌, refl, arith, ltb, false, List, [], ◌∷◌, length, All}
use flowstatd.Flow.{FlowState}
use flowstatd.Records.{
  max_subnet, gz_length, export_record, content, Memory, returns, resize, read_arrays, read_table,
  import_record,
}
use flowstatd.Records.Bytes.{overlay, after}
use flowstatd.Records.Layout.{sizeof_subnet, sizeof_hostflow, put_subnets, put_hosts, get_hosts}
use flowstatd.Records.Codec.{FitsSubnet, FitsHost, get_subnets-put_subnets, get_hosts-put_hosts}
use flowstatd.Records.Overlay.{overlay-put_subnets}
use flowstatd.Records.Limit.{max_stored}
use flowstatd.Records.RoundTrip.{read_uint-put_le, after_uint-put_le, length-resize, resize-length}

-- From here on the length of the bytes does not fit into 32 bits.
abbrev pub max_counted : ℕ
max_counted = 10_324_440

overlay-nil : (object : List ℕ) → overlay object [] ≡ object
unfolding overlay
overlay-nil [] = refl
overlay-nil (m ∷ object) = refl

gz_length_refused : (n : ℕ) → max_stored < n → n ≤ max_counted → gz_length (sizeof_hostflow * n) ≡ 0
unfolding gz_length
gz_length_refused n large small = ground arith

module _ (m : Memory) (pad : ℕ) (saved now : FlowState) (nets : All FitsSubnet saved.nets)
    (few : length saved.nets ≤ max_subnet) (large : max_stored < length saved.ip_table)
    (small : length saved.ip_table ≤ max_counted)
    (same : length now.ip_table ≡ length saved.ip_table) (fits : All FitsHost now.ip_table) where
  read_arrays-lost :
      read_arrays m (length saved.nets) (length saved.ip_table) (put_subnets pad saved.nets []) now
      ≡ record now { nets = saved.nets }
  unfolding read_arrays after
  read_arrays-lost =
      let cells = resize m.spare (length saved.nets) now.nets in
      let same_nets : length cells ≡ length saved.nets =
        length-resize m.spare (length saved.nets) now.nets in
      let table : resize m.heap (length saved.ip_table) now.ip_table ≡ now.ip_table =
        rw same at (resize-length m.heap now.ip_table) in
      let kept : get_hosts (length saved.ip_table) (put_hosts m.pad now.ip_table [])
          ≡ now.ip_table =
        rw same at (get_hosts-put_hosts m.pad now.ip_table [] fits) in
      rw (
        gz_length_refused (length saved.ip_table) large small,
        overlay-put_subnets m.pad pad [] [] cells saved.nets same_nets,
        get_subnets-put_subnets pad saved.nets (overlay [] []) nets,
        overlay-nil _,
        table,
        kept,
      )

  -- Counters of 5,162,221 to 10,324,440 entries, and at most 50 subnets with values of their C types,
  -- that `ExportRecord` wrote: a process with as many entries, with values of their C types, gets 1 from
  -- `ImportRecord`, and has the subnets of the file, but keeps its own entries, since the file has none.
  pub import_record-export_record_lost :
      import_record m (content (export_record pad saved)) now
      ≡ returns 1 (record now { nets = saved.nets })
  unfolding import_record export_record read_table
  import_record-export_record_lost =
      let few_nets : ltb max_subnet (length saved.nets) ≡ false = (ground (arith, few)) in
      let size : ℕ = sizeof_subnet in
      let count = length saved.nets in
      let size' : ℕ = sizeof_hostflow in
      let saved_count = length saved.ip_table in
      let as_many : ltb (length now.ip_table) saved_count ≡ false = (ground (arith, same)) in
      rw
        (
          gz_length_refused saved_count large small,
          read_uint-put_le m.tmp_val size _ (omega arith),
          after_uint-put_le m.tmp_val size _,
          read_uint-put_le size count _ (omega (arith, few)),
          after_uint-put_le size count _,
          read_uint-put_le count size' _ (omega arith),
          after_uint-put_le count size' _,
          read_uint-put_le size' saved_count _ (omega (arith, small)),
          after_uint-put_le size' saved_count _,
          few_nets,
          as_many,
          same,
        )
        (rw read_arrays-lost refl)
