-- ===== src/Records/RoundTrip.antt =====
-- A file that was written is read back.
use flowstatd.Base.{
  drop-all, ℕ, zero, suc, ◌≤◌, ◌<◌, ◌≡◌, refl, ap, arith, ltb, true, false, Bool-cases, inl, inr,
  List, [], ◌∷◌, ◌++◌, length, drop, All,
}
use flowstatd.Base.Words.{word32}
use flowstatd.Records.Limit.{max_stored, take-gz_length}
use flowstatd.Flow.{FlowState}
use flowstatd.Records.{
  max_subnet, export_record, content, Memory, returns, resize, read_uint, after_uint, read_arrays,
  read_table, import_record,
}
use flowstatd.Records.Bytes.{put_le, overlay, after, get_le-put_le, overlay-put_le, after-put_le}
use flowstatd.Records.Layout.{sizeof_subnet, sizeof_hostflow, put_subnets, put_hosts, get_hosts}
use flowstatd.Records.Codec.{FitsSubnet, FitsHost, get_subnets-put_subnets}
use flowstatd.Records.Overlay.{
  overlay-put_subnets, after-put_subnets, overlay-put_hosts, get_hosts-put_hosts_over,
}

pub read_uint-put_le :
    (old x : ℕ) (rest : List ℕ) → x < word32 → read_uint old (put_le 4 x rest) ≡ x
unfolding read_uint
read_uint-put_le old x rest h =
    rw (overlay-put_le 4 old x [] rest) (get_le-put_le 4 x (overlay [] rest) h)

pub after_uint-put_le : (old x : ℕ) (rest : List ℕ) → after_uint old (put_le 4 x rest) ≡ rest
unfolding after_uint after
after_uint-put_le old x rest = after-put_le 4 old x [] rest

pub length-resize {ℓ} :
    {A : Type ℓ} (cell : ℕ → A) (n : ℕ) (xs : List A) → length (resize cell n xs) ≡ n
unfolding resize
length-resize cell zero xs = refl
length-resize cell (suc n) [] = ap suc (length-resize cell n [])
length-resize cell (suc n) (x ∷ xs) = ap suc (length-resize cell n xs)

pub resize-length {ℓ} : {A : Type ℓ} (cell : ℕ → A) (xs : List A) → resize cell (length xs) xs ≡ xs
unfolding resize
resize-length cell [] = refl
resize-length cell (x ∷ xs) = ap (λ ys. x ∷ ys) (resize-length cell xs)

All-resize {ℓ} :
    {A : Type ℓ} (P : A → Type 0) (cell : ℕ → A) (n : ℕ) (xs : List A)
    → ((i : ℕ) → P (cell i))
    → All P xs
    → All P (resize cell n xs)
unfolding resize
All-resize P cell zero xs h k = tt
All-resize P cell (suc n) [] h k = (h n, All-resize P cell n [] h tt)
All-resize P cell (suc n) (x ∷ xs) h (p, k) = (p, All-resize P cell n xs h k)

-- Counters that a file can hold: every field has a value of its C type, there are no more subnets than
-- `rcvNetList` has cells for, and no more entries than `gzwrite` takes.
pub record IsStorable (st : FlowState) : Type 0 where
  pub nets : All FitsSubnet st.nets
  pub few : length st.nets ≤ max_subnet
  pub table : All FitsHost st.ip_table
  pub count : length st.ip_table ≤ max_stored

module _ (m : Memory) (pad : ℕ) (saved now : FlowState) (storable : IsStorable saved)
    (fits : All FitsHost now.ip_table) (heap_fits : (i : ℕ) → FitsHost (m.heap i)) where
  read_arrays-put :
      (c : ℕ)
      → length saved.ip_table ≤ c
      → c ≤ max_stored
      → read_arrays m
          (length saved.nets)
          c
          (put_subnets pad saved.nets (put_hosts pad saved.ip_table []))
          now
        ≡ record now {
          nets = saved.nets;
          ip_table = saved.ip_table ++ drop (length saved.ip_table) (resize m.heap c now.ip_table);
        }
  unfolding read_arrays after
  read_arrays-put c h most =
      let nets = resize m.spare (length saved.nets) now.nets in
      let same_nets : length nets ≡ length saved.nets =
        length-resize m.spare (length saved.nets) now.nets in
      let cells = resize m.heap c now.ip_table in
      let size : length cells ≡ c = length-resize m.heap c now.ip_table in
      let cells_fit = All-resize FitsHost m.heap c now.ip_table heap_fits fits in
      let table = put_hosts pad saved.ip_table [] in
      let tables : get_hosts c (overlay (put_hosts m.pad cells []) table)
          ≡ saved.ip_table ++ drop (length saved.ip_table) cells =
        rw
          (overlay-put_hosts m.pad pad cells saved.ip_table (omega (arith, size)) cells_fit
            storable.table)
          (rw size at (
            get_hosts-put_hosts_over m.pad pad cells saved.ip_table (omega (arith, size)) cells_fit
              storable.table)) in
      rw (
        overlay-put_subnets m.pad pad [] table nets saved.nets same_nets,
        after-put_subnets m.pad pad [] table nets saved.nets same_nets,
        get_subnets-put_subnets pad saved.nets (overlay [] table) storable.nets,
        take-gz_length pad c saved.ip_table storable.table h most,
        tables,
      )

  -- Counters that `ExportRecord` wrote, of at most 50 subnets and 5,162,220 entries and with values of
  -- their C types, read by a process with other counters of such values, with at most 5,162,220
  -- entries and with memory for those of the file: `ImportRecord` returns 1 and gives back the
  -- subnets, and the entries of the file. If the process has more entries than
  -- the file, its own last entries stay behind those of the file.
  pub import_record-export_record :
      m.has_room (length saved.ip_table) ≡ true
      → length now.ip_table ≤ max_stored
      → import_record m (content (export_record pad saved)) now
        ≡ returns 1 (record now {
          nets = saved.nets;
          ip_table = saved.ip_table ++ drop (length saved.ip_table) now.ip_table;
        })
  unfolding import_record export_record read_table
  import_record-export_record room most =
      let arrays = put_subnets pad saved.nets (put_hosts pad saved.ip_table []) in
      let few : ltb max_subnet (length saved.nets) ≡ false =
        (let bound = storable.few in ground arith) in
      let size : ℕ = sizeof_subnet in
      let count = length saved.nets in
      let size' : ℕ = sizeof_hostflow in
      let saved_count = length saved.ip_table in
      rw
        (
          take-gz_length pad saved_count saved.ip_table storable.table (omega arith) storable.count,
          read_uint-put_le m.tmp_val size _ (omega arith),
          after_uint-put_le m.tmp_val size _,
          read_uint-put_le size count _ (omega (arith, storable.few)),
          after_uint-put_le size count _,
          read_uint-put_le count size' _ (omega arith),
          after_uint-put_le count size' _,
          read_uint-put_le size' saved_count arrays (omega (arith, storable.count)),
          after_uint-put_le size' saved_count arrays,
          few,
        )
        (elim (Bool-cases (ltb (length now.ip_table) saved_count)) [
          | inl more ↦
              let all_new : drop saved_count now.ip_table ≡ [] =
                drop-all saved_count now.ip_table (ground arith) in
              let filled = length-resize m.heap saved_count now.ip_table in
              let none_left : drop saved_count (resize m.heap saved_count now.ip_table) ≡ [] =
                drop-all saved_count _ (omega (arith, filled)) in
              rw (
                more,
                room,
                read_arrays-put saved_count (omega arith) storable.count,
                none_left,
                all_new,
              )
          | inr enough ↦ rw (
            enough,
            read_arrays-put (length now.ip_table) (ground arith) most,
            resize-length m.heap now.ip_table,
          )
        ])
