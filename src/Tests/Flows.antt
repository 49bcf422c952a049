-- ===== src/Tests/Flows.antt =====
-- Times, the counting of a flow, and v5 packets.
use flowstatd.Base.{
  ℕ, ◌+◌, ◌*◌, ◌/◌, ◌<◌, ◌≡◌, refl, inr, arith, List, [], ◌∷◌, ◌++◌, length, replicate,
  length-replicate, get_elem?-append_ne, All-replicate, Returns, done, undefined,
}
use flowstatd.Base.Words.{word32, read_be16}
use flowstatd.Base.Reads.{IsBytes}
use flowstatd.Clock.{ftltime, NfTimeInfo, convert_nf_time}
use flowstatd.Clock.Exact.{millis, ftltime-millis, ftltime-lt}
use flowstatd.Flow.{insert_nf_info, up, down}
use flowstatd.Flow.Shape.{IsSound, insert_nf_info-IsSound}
use flowstatd.Flow.Effect.{Charged, insert_nf_info_outgoing, insert_nf_info_incoming}
use flowstatd.V5.{add_flow_data_v5}
use flowstatd.V5.Records.{add_flow_data_v5-IsSound, add_flow_data_v5_overrun}
use flowstatd.V5.Skip.{AgreeBeyond, add_flow_data_v5_skips}
use flowstatd.Flow.Ledger.{Transfer, post_all, place, ledger, insert_all}
use flowstatd.Flow.Ledger.Refined.{Refines, insert_all-Refines}
use flowstatd.Tests.Sample.{clock, empty, empty-IsSound, two_nets, ten}
use flowstatd.Tests.Lookups.{host, host_found, host_codes}

ftltime-millis_example :
    (millis (ftltime 5500 100 250_000_000 4800) + 5500
      ≡ 100 * 1000 + 250_000_000 / 1_000_000 + 4800)
    × ((ftltime 5500 100 250_000_000 4800).msecs < 1000)
ftltime-millis_example =
    ftltime-millis 5500 100 250_000_000 4800 (omega arith) (omega arith) (omega arith) (omega arith)
      (omega arith) (omega arith)

ftltime-lt_example :
    ((ftltime 5500 100 250_000_000 4800).msecs < 1000)
    × ((ftltime 5500 100 250_000_000 4800).secs < word32)
ftltime-lt_example = ftltime-lt 5500 100 250_000_000 4800 (omega arith)

-- Two hours after the start of the clock.
abbrev info : NfTimeInfo
info = record { sys_uptime = 0; unix_secs = 7200; unix_nsecs = 0; first_packet_time = 0 }

insert_nf_info-IsSound_example :
    Returns (insert_nf_info clock host 0x0808_0808 1500 info empty) IsSound
insert_nf_info-IsSound_example =
    insert_nf_info-IsSound clock host 0x0808_0808 1500 info empty empty-IsSound (omega arith)
      (omega arith)

today : (convert_nf_time clock info).tm_mday ≡ 0
unfolding convert_nf_time
today = refl

insert_nf_info_outgoing_example :
    Returns
      (insert_nf_info clock host 0x0808_0808 1500 info empty)
      (Charged up 263 host 1500 (convert_nf_time clock info).tm_hour empty)
insert_nf_info_outgoing_example =
    insert_nf_info_outgoing clock host 0x0808_0808 1500 info empty empty-IsSound (omega arith)
      (omega arith) 263 host_found host_codes.1 today

insert_nf_info_incoming_example :
    Returns
      (insert_nf_info clock 0x0808_0808 host 1500 info empty)
      (Charged down 263 host 1500 (convert_nf_time clock info).tm_hour empty)
insert_nf_info_incoming_example =
    insert_nf_info_incoming clock 0x0808_0808 host 1500 info empty empty-IsSound (omega arith)
      (omega arith) 263 host_codes.1 host_found today

-- A v5 packet of `n` records, all zero but for its header, in the receive buffer.
abbrev zero_packet : ℕ → List ℕ
zero_packet n = 0 ∷ 5 ∷ 0 ∷ n ∷ replicate 8188 0

zero_packet-IsBytes : (n : ℕ) → n < 256 → IsBytes (zero_packet n)
zero_packet-IsBytes n h = (
  omega arith,
  (omega arith, (omega arith, (h, All-replicate (λ b. b < 256) 8188 0 (omega arith)))),
)

zero_packet-length : (n : ℕ) → length (zero_packet n) ≡ 8192
zero_packet-length n = omega (arith, length-replicate {A = ℕ} 8188 0)

zero_packet-count : (n : ℕ) → read_be16 (zero_packet n) 2 ≡ done (0 * 256 + n)
unfolding read_be16
zero_packet-count n = refl

add_flow_data_v5-IsSound_example :
    Returns (add_flow_data_v5 clock (zero_packet 2) 120 empty) IsSound
add_flow_data_v5-IsSound_example =
    add_flow_data_v5-IsSound clock (zero_packet 2) 120 empty (zero_packet-IsBytes 2 (omega arith))
      (zero_packet-length 2) (omega arith) empty-IsSound

add_flow_data_v5_overrun_example : add_flow_data_v5 clock (zero_packet 170) 8184 empty ≡ undefined
add_flow_data_v5_overrun_example =
    add_flow_data_v5_overrun clock (zero_packet 170) empty (zero_packet-IsBytes 170 (omega arith))
      (zero_packet-length 170) (zero_packet-count 170) empty-IsSound

-- Packets of one record, with source addresses that differ in one byte.
abbrev before_octet : List ℕ
before_octet = 0 ∷ 5 ∷ 0 ∷ 1 ∷ replicate 20 0 ++ (10 ∷ 0 ∷ 1 ∷ [])

abbrev one_record : ℕ → List ℕ
one_record octet = before_octet ++ octet ∷ replicate 92 0

one_record-AgreeBeyond : AgreeBeyond (one_record 7) (one_record 9)
one_record-AgreeBeyond i h = get_elem?-append_ne before_octet (replicate 92 0) i 7 9 (omega arith)

add_flow_data_v5_skips_example :
    add_flow_data_v5 clock (one_record 7) 72 empty ≡ add_flow_data_v5 clock (one_record 9) 72 empty
add_flow_data_v5_skips_example =
    add_flow_data_v5_skips clock (one_record 7) (one_record 9) one_record-AgreeBeyond 72 empty

-- A flow out and one back.
abbrev transfers : List Transfer
transfers =
    record { src = host; dst = 0x0808_0808; bytes = 1500; info = info }
    ∷ record { src = 0x0808_0808; dst = host; bytes = 40; info = info }
    ∷ []

insert_all-Refines_example :
    Returns
      (insert_all clock transfers empty)
      (Refines empty (post_all clock 0 (place two_nets ten) transfers (ledger empty)))
insert_all-Refines_example =
    insert_all-Refines clock transfers empty empty-IsSound (inr (inr refl), (inr (inr refl), tt))
      ((omega arith, omega arith), ((omega arith, omega arith), tt))
