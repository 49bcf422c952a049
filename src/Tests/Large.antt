-- ===== src/Tests/Large.antt =====
-- The counters of a /9 network, whose table is too large for the file.
use flowstatd.Base.{
  ◌≡◌, arith, List, [], ◌∷◌, length, replicate, length-replicate, All, All-replicate,
}
use flowstatd.Subnet.{Subnet}
use flowstatd.Flow.{HostFlow, FlowState, zero_flow}
use flowstatd.Records.{export_record, content, returns, import_record}
use flowstatd.Records.Codec.{zero_flow-FitsHost, FitsSubnet, FitsHost}
use flowstatd.Records.Lost.{import_record-export_record_lost}
use flowstatd.Tests.Sample.{empty}
use flowstatd.Tests.Files.{memory}

-- 10.0.0.0/9
abbrev half_of_ten : Subnet
half_of_ten = record { net = 0x0a; mask = 0x80ff; mask_bits = 9; ip_count = 0x80_0000 }

half_of_ten-FitsSubnet : FitsSubnet half_of_ten
half_of_ten-FitsSubnet = record {
  net = omega arith;
  mask = omega arith;
  mask_bits = omega arith;
  ip_count = omega arith;
}

-- A table for it.
unfoldable large_table : HostFlow → List HostFlow
large_table host = replicate 0x80_0000 host

length-large_table : (host : HostFlow) → length (large_table host) ≡ 0x80_0000
unfolding large_table
length-large_table host = length-replicate 0x80_0000 host

large_table-FitsHost : All FitsHost (large_table zero_flow)
unfolding large_table
large_table-FitsHost = All-replicate FitsHost 0x80_0000 zero_flow zero_flow-FitsHost

-- Every entry has counted a megabyte.
abbrev counted : HostFlow
counted = record zero_flow { nflow = record { upload = 1_048_576; download = 0; sum = 1_048_576 } }

abbrev large : FlowState
large = record empty { nets = half_of_ten ∷ []; ip_table = large_table counted }

abbrev large_fresh : FlowState
large_fresh = record large { ip_table = large_table zero_flow }

-- Cleared counters stay cleared.
import_record-export_record_lost_example :
    import_record memory (content (export_record 0 large)) large_fresh
    ≡ returns 1 (record large_fresh { nets = large.nets })
import_record-export_record_lost_example =
    import_record-export_record_lost memory 0 large large_fresh (half_of_ten-FitsSubnet, tt)
      (omega arith) (omega (arith, length-large_table counted))
      (omega (arith, length-large_table counted))
      (omega (arith, length-large_table counted, length-large_table zero_flow)) large_table-FitsHost
