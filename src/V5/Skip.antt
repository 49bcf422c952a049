-- ===== src/V5/Skip.antt =====
-- The first record of a v5 packet is never read: `ptr` moves before each read.
use flowstatd.Base.{
  ℕ, zero, suc, ◌+◌, ◌≤◌, ◌<◌, ◌≡◌, ◌⊎◌, inl, inr, refl, arith, List, get_elem?, >>=-eq, ℤ, pos,
  negsuc,
}
use flowstatd.Base.Reads.{AgreeAt, read_be16-agree, read_be32-agree, read_addr-agree}
use flowstatd.Clock.{Platform}
use flowstatd.Flow.{FlowState}
use flowstatd.V5.{
  insert_record, insert_records, insert_flow_entry, add_flow_data_v5, is_valid_packet,
}

-- The buffers differ at most in the bytes 24 to 71, where the first record lies.
abbrev pub AgreeBeyond : List ℕ → List ℕ → Type 0
AgreeBeyond buf other = (i : ℕ) → (i < 24) ⊎ (72 ≤ i) → get_elem? buf i ≡ get_elem? other i

module _ (platform : Platform) (buf other : List ℕ) (agree : AgreeBeyond buf other) where
  header : (p n : ℕ) → p + n ≤ 24 → AgreeAt buf other p n
  header p n h i k = agree (p + i) (inl (omega arith))

  beyond : (p n : ℕ) → 72 ≤ p → AgreeAt buf other p n
  beyond p n h i k = agree (p + i) (inr (omega arith))

  insert_record-agree :
      (ptr : ℕ) (st : FlowState)
      → 72 ≤ ptr
      → insert_record platform buf ptr st ≡ insert_record platform other ptr st
  unfolding insert_record
  insert_record-agree ptr st h = rw (
    read_be32-agree buf other 4 (header 4 4 (omega arith)),
    read_be32-agree buf other 8 (header 8 4 (omega arith)),
    read_be32-agree buf other 12 (header 12 4 (omega arith)),
    read_be32-agree buf other (ptr + 24) (beyond (ptr + 24) 4 (omega arith)),
    read_be32-agree buf other (ptr + 20) (beyond (ptr + 20) 4 (omega arith)),
    read_addr-agree buf other ptr (beyond ptr 4 h),
    read_addr-agree buf other (ptr + 4) (beyond (ptr + 4) 4 (omega arith)),
  )

  insert_records-agree :
      (rounds ptr : ℕ) (st : FlowState)
      → 24 ≤ ptr
      → insert_records platform buf rounds ptr st ≡ insert_records platform other rounds ptr st
  unfolding insert_records
  insert_records-agree zero ptr st h = refl
  insert_records-agree (suc rounds) ptr st h =
      >>=-eq (insert_record platform buf (ptr + 48) st) (insert_record platform other (ptr + 48) st)
        (insert_records platform buf rounds (ptr + 48))
        (insert_records platform other rounds (ptr + 48))
        (insert_record-agree (ptr + 48) st (omega arith))
        (λ st'. insert_records-agree rounds (ptr + 48) st' (omega arith))

  insert_flow_entry-agree :
      (n : ℤ) (st : FlowState)
      → insert_flow_entry platform buf n st ≡ insert_flow_entry platform other n st
  unfolding insert_flow_entry
  insert_flow_entry-agree (pos n) st = insert_records-agree n 24 st (omega arith)
  insert_flow_entry-agree (negsuc n) st = refl

  -- Two buffers that differ only in the first record have the same effect, whatever else they hold:
  -- no packet's first record is counted.
  pub add_flow_data_v5_skips :
      (packet_len : ℕ) (st : FlowState)
      → add_flow_data_v5 platform buf packet_len st ≡ add_flow_data_v5 platform other packet_len st
  unfolding add_flow_data_v5 is_valid_packet
  add_flow_data_v5_skips packet_len st =
      rw (read_be16-agree buf other 2 (header 2 2 (omega arith)))
        (>>=-eq _ _ _ _ refl (λ n. insert_flow_entry-agree n st))
