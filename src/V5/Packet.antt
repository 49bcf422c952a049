-- ===== src/V5/Packet.antt =====
-- Which packets `IsValidPacket` accepts.
use flowstatd.Base.{ℕ, ◌+◌, ◌*◌, ◌≤◌, ◌<◌, ◌≡◌, ◌==◌, if◌then◌else◌, arith, List, done, pos}
use flowstatd.Base.Words.{word16, read_be16}
use flowstatd.V5.{is_valid_packet}

-- For a packet of a length that the buffer can hold, whose header says `count`, `IsValidPacket`
-- returns `count` if the packet is as long as a header and that many records, and 0 if not; the
-- unsigned wrap for a packet shorter than a header lets nothing through.
pub is_valid_packet_lem :
    (buf : List ℕ) (packet_len count : ℕ)
    → packet_len ≤ 8192
    → read_be16 buf 2 ≡ done count
    → count < word16
    → is_valid_packet buf packet_len
      ≡ done (pos (if packet_len == 24 + 48 * count then count else 0))
unfolding is_valid_packet
is_valid_packet_lem buf packet_len count h e c = rw e (ground arith)
