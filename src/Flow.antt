-- ===== src/Flow.antt =====
-- `struct hostflow` (src/flowstatd.h) and `InsertNfInfoToIpTable` (src/netflow.c): the counters of
-- each address, and how one flow is counted.
pub mod Shape
pub mod Effect
pub mod Kept
pub mod Ledger
use flowstatd.Base.{
  ℕ, zero, suc, ◌+◌, ◌%◌, ◌==◌, if◌then◌else◌, List, get_elem?, set, replicate, Run, done, ◌>>=◌,
  load, ℤ, pos, negsuc,
}
use flowstatd.Base.Words.{word64}
use flowstatd.Subnet.{Subnet}
use flowstatd.Lookup.{get_ip_idx}
use flowstatd.Clock.{Tm, Platform, NfTimeInfo, convert_nf_time}

-- `hflow[hour]`, indexed by `UPLOAD` and `DOWNLOAD`.
pub record Hour : Type 0 where
  pub upload : ℕ
  pub download : ℕ

-- `nflow`, indexed by `UPLOAD`, `DOWNLOAD` and `SUM`.
pub record Totals : Type 0 where
  pub upload : ℕ
  pub download : ℕ
  pub sum : ℕ

pub record HostFlow : Type 0 where
  pub sin_addr : ℕ
  pub hflow : List Hour
  pub nflow : Totals

pub data Direction : Type 0 where
  up : Direction
  down : Direction

-- An entry that `memset` cleared.
abbrev pub zero_flow : HostFlow
zero_flow = record {
  sin_addr = 0;
  hflow = replicate 24 (record { upload = 0; download = 0 });
  nflow = record { upload = 0; download = 0; sum = 0 };
}

-- `x += y` on `unsigned long long`.
abbrev pub add64 : ℕ → ℕ → ℕ
add64 x y = (x + y) % word64

unfoldable pub add_hour : Direction → ℕ → Hour → Hour
add_hour up bytes h = record h { upload = add64 h.upload bytes }
add_hour down bytes h = record h { download = add64 h.download bytes }

unfoldable pub add_totals : Direction → ℕ → Totals → Totals
add_totals up bytes t = record t { upload = add64 t.upload bytes; sum = add64 t.sum bytes }
add_totals down bytes t = record t { download = add64 t.download bytes; sum = add64 t.sum bytes }

-- The four assignments to an entry of `ipTable`.
unfoldable pub add_flow : Direction → ℕ → ℕ → ℕ → HostFlow → Run HostFlow
unfolding add_hour add_totals
add_flow dir addr hour bytes host = do
  h ← load (get_elem? host.hflow hour)
  done (record {
    sin_addr = addr;
    hflow = set host.hflow hour (add_hour dir bytes h);
    nflow = add_totals dir bytes host.nflow;
  })

unfoldable pub count_flow : Direction → ℕ → ℕ → ℕ → ℕ → List HostFlow → Run (List HostFlow)
count_flow dir idx addr hour bytes table = do
  host ← load (get_elem? table idx)
  host' ← add_flow dir addr hour bytes host
  done (set table idx host')

-- Which end of a flow is counted: `srcIPIdx >= 0 && dstIPIdx == RET_NOT_IN_MYNET`, else
-- `dstIPIdx >= 0 && srcIPIdx == RET_NOT_IN_MYNET`, else none.
pub data Role : Type 0 where
  sent : ℕ → Role
  received : ℕ → Role
  ignored : Role

unfoldable pub role : ℤ → ℤ → Role
role (pos i) (negsuc (suc zero)) = sent i
role (negsuc (suc zero)) (pos j) = received j
role _ _ = ignored

-- The global variables that the flow counters need. `nSubnet` and `sumIpCount` are the lengths of
-- `nets` and `ip_table`.
pub record FlowState : Type 0 where
  pub nets : List Subnet
  pub my_net : Subnet
  pub localtm : Tm
  pub ip_table : List HostFlow

-- A flow is counted only if it began on the day of `localtm`.
unfoldable pub record_flow : Direction → ℕ → ℕ → ℕ → Tm → FlowState → Run FlowState
record_flow dir idx addr bytes tm st =
    if tm.tm_mday == st.localtm.tm_mday
    then (do
      table ← count_flow dir idx addr tm.tm_hour bytes st.ip_table
      done (record st { ip_table = table }))
    else done st

unfoldable pub apply_role : Role → ℕ → ℕ → ℕ → Tm → FlowState → Run FlowState
apply_role (sent i) src dst bytes tm st = record_flow up i src bytes tm st
apply_role (received j) src dst bytes tm st = record_flow down j dst bytes tm st
apply_role ignored src dst bytes tm st = done st

unfoldable pub insert_nf_info : Platform → ℕ → ℕ → ℕ → NfTimeInfo → FlowState → Run FlowState
insert_nf_info platform src dst bytes info st = do
  src_idx ← get_ip_idx st.nets st.my_net src
  dst_idx ← get_ip_idx st.nets st.my_net dst
  let tm = convert_nf_time platform info
  apply_role (role src_idx dst_idx) src dst bytes tm st
