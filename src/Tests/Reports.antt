-- ===== src/Tests/Reports.antt =====
-- The whitelist, and the answers to the queries.
use mathlib.Core.List.{Mem, mem-cons}
use mathlib.Core.Logic.Or
use flowstatd.Base.{ℕ, ◌≡◌, refl, inl, inr, arith, List, [], ◌∷◌, done, undefined, Returns, false}
use flowstatd.Flow.{HostFlow}
use flowstatd.Report.{listing, get_by_flow, get_by_top_n, get_by_ip}
use flowstatd.Report.Whitelist.{HasEnd, hides, shown}
use flowstatd.Report.Over.{filter_by, number, is_listed, get_by_flow_lem}
use flowstatd.Report.Top.{first_n, get_by_top_n_lem, get_by_top_n_past}
use flowstatd.Report.Address.{IsReply, get_by_ip-IsReply}
use flowstatd.Tests.Sample.{empty, empty-IsSound}
use flowstatd.Tests.Lookups.{host, two_nets-IsUniform}
use flowstatd.Tests.Sorter.{sorter}

abbrev entry : ℕ → ℕ → HostFlow
entry addr sum = record {
  sin_addr = addr;
  hflow = [];
  nflow = record { upload = 0; download = sum; sum = sum };
}

abbrev three_hosts : List HostFlow
three_hosts = entry 1 2_000_000 ∷ entry 2 9_000_000 ∷ entry 3 5_000_000 ∷ []

abbrev whitelist : List ℕ
whitelist = 3 ∷ 0 ∷ []

whitelist-HasEnd : HasEnd whitelist
whitelist-HasEnd = inr (inl refl)

least_host : Mem (entry 1 2_000_000) three_hosts
least_host = mem-cons.1 (Or.inl refl)

get_by_flow_lem_example :
    get_by_flow sorter false whitelist 4 three_hosts
    ≡ done (listing (number 0 (filter_by (is_listed false whitelist 4) (sorter.qsort three_hosts))))
get_by_flow_lem_example =
    get_by_flow_lem false whitelist 4 whitelist-HasEnd sorter three_hosts (entry 1 2_000_000)
      (omega arith) least_host (omega arith)

get_by_top_n_lem_example :
    get_by_top_n sorter false whitelist 2 three_hosts
    ≡ done (
        listing
          (number 0 (first_n 2 (filter_by (shown false whitelist) (sorter.qsort three_hosts)))))
get_by_top_n_lem_example =
    get_by_top_n_lem false whitelist 2 whitelist-HasEnd (omega arith) sorter three_hosts
      (omega arith) (omega arith) (omega arith)

get_by_top_n_past_example : get_by_top_n sorter false (3 ∷ 2 ∷ 0 ∷ []) 2 three_hosts ≡ undefined
get_by_top_n_past_example =
    get_by_top_n_past false (3 ∷ 2 ∷ 0 ∷ []) 2 (inr (inr (inl refl))) (omega arith) sorter
      three_hosts (omega arith) (omega arith) (omega arith)

get_by_ip-IsReply_example :
    Returns (get_by_ip false whitelist host empty) (IsReply (hides false whitelist host) empty host)
get_by_ip-IsReply_example =
    get_by_ip-IsReply false whitelist host empty whitelist-HasEnd two_nets-IsUniform empty-IsSound
      (omega arith)
