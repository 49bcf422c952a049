-- ===== src/V5/Kept.antt =====
-- What any v5 packet keeps, as far as its records are read.
use flowstatd.Base.{
  ℕ, zero, suc, ◌+◌, ◌<◌, List, Run, ◌>>=◌, ℤ, pos, negsuc, Whenever, Whenever-Unit, >>=-Whenever,
}
use flowstatd.Base.Words.{word32, read_be32, read_addr}
use flowstatd.Base.Reads.{IsBytes, read_addr-Whenever}
use flowstatd.Clock.{Platform}
use flowstatd.Flow.{FlowState}
use flowstatd.Flow.Kept.{Keeps}
use flowstatd.V5.{
  is_valid_packet, insert_record, insert_records, insert_flow_entry, add_flow_data_v5,
}

module _ (platform : Platform) (P : FlowState → Type 0) (keeps : Keeps platform P) (buf : List ℕ)
    (bytes : IsBytes buf) where
  -- A word that the record holds.
  skip_word :
      (p : ℕ) (f : ℕ → Run FlowState)
      → ((v : ℕ) → Whenever (f v) P)
      → Whenever (read_be32 buf p >>= f) P
  skip_word p f h =
      >>=-Whenever (read_be32 buf p) f (λ v. Unit {0}) P (Whenever-Unit (read_be32 buf p))
        (λ v u. h v)

  insert_record-Keeps :
      (ptr : ℕ) (st : FlowState) → P st → Whenever (insert_record platform buf ptr st) P
  unfolding insert_record
  insert_record-Keeps ptr st holds = skip_word 4 _ λ a. skip_word 8 _ λ b. skip_word 12 _ λ c.
      skip_word (ptr + 24) _ λ d. skip_word (ptr + 20) _ λ octets.
        >>=-Whenever (read_addr buf ptr) _ (λ v. v < word32) P (read_addr-Whenever buf bytes ptr)
          λ src fs.
            >>=-Whenever (read_addr buf (ptr + 4)) _ (λ v. v < word32) P
              (read_addr-Whenever buf bytes (ptr + 4))
              λ dst fd. keeps src dst octets _ st fs fd holds

  insert_records-Keeps :
      (rounds ptr : ℕ) (st : FlowState)
      → P st
      → Whenever (insert_records platform buf rounds ptr st) P
  unfolding insert_records
  insert_records-Keeps zero ptr st holds = holds
  insert_records-Keeps (suc rounds) ptr st holds =
      >>=-Whenever (insert_record platform buf (ptr + 48) st) _ P P
        (insert_record-Keeps (ptr + 48) st holds)
        (λ st' holds'. insert_records-Keeps rounds (ptr + 48) st' holds')

  pub add_flow_data_v5-Keeps :
      (packet_len : ℕ) (st : FlowState)
      → P st
      → Whenever (add_flow_data_v5 platform buf packet_len st) P
  unfolding add_flow_data_v5 insert_flow_entry
  add_flow_data_v5-Keeps packet_len st holds =
      >>=-Whenever (is_valid_packet buf packet_len) _ (λ n. Unit {0}) P
        (Whenever-Unit (is_valid_packet buf packet_len)) (λ n u. counted n)
    where
      counted : (n : ℤ) → Whenever (insert_flow_entry platform buf n st) P
      counted (pos n) = insert_records-Keeps n 24 st holds
      counted (negsuc n) = holds
