-- ===== src/Tests/Lookups.antt =====
-- Subnets and the lookup of an address.
use flowstatd.Base.{ℕ, zero, suc, ◌+◌, ◌<◌, ◌≡◌, refl, arith, get_elem?, some, done, pos, negsuc}
use flowstatd.Subnet.{Subnet}
use flowstatd.Lookup.{search_net, sum_counts, host_offset, hit_index, get_ip_idx}
use flowstatd.Lookup.Search.{IsUniform}
use flowstatd.Lookup.Index.{total_before, offset_of}
use flowstatd.Lookup.Laws.{get_ip_idx_complete}
use flowstatd.Tests.Sample.{subnet_b, ten, two_nets, two_nets-IsValid}

-- 10.0.2.7
abbrev pub host : ℕ
host = 0x0702_000a

pub host_found : get_ip_idx two_nets ten host ≡ done (pos 263)
unfolding get_ip_idx search_net hit_index sum_counts host_offset
host_found = refl

-- 10.9.9.9 is in the network, 8.8.8.8 is not.
pub host_codes :
    (get_ip_idx two_nets ten 0x0909_090a ≡ done (negsuc 0))
    × (get_ip_idx two_nets ten 0x0808_0808 ≡ done (negsuc 1))
unfolding get_ip_idx search_net hit_index sum_counts host_offset
host_codes = (refl, refl)

two_nets_same : (i : ℕ) (s : Subnet) → get_elem? two_nets i ≡ some s → s.mask ≡ 0x00ff_ffff
two_nets_same zero s e = ground arith
two_nets_same (suc zero) s e = ground arith
two_nets_same (suc (suc i)) s e = cc

two_nets_ascending :
    (i j : ℕ) (s t : Subnet)
    → i < j
    → get_elem? two_nets i ≡ some s
    → get_elem? two_nets j ≡ some t
    → s.net < t.net
two_nets_ascending zero zero s t h e f = absurd (omega arith)
two_nets_ascending zero (suc zero) s t h e f = ground arith
two_nets_ascending zero (suc (suc j)) s t h e f = cc
two_nets_ascending (suc zero) zero s t h e f = absurd (omega arith)
two_nets_ascending (suc zero) (suc zero) s t h e f = absurd (omega arith)
two_nets_ascending (suc zero) (suc (suc j)) s t h e f = cc
two_nets_ascending (suc (suc i)) j s t h e f = cc

pub two_nets-IsUniform : IsUniform 0x00ff_ffff two_nets
two_nets-IsUniform = record { same = two_nets_same; ascending = two_nets_ascending }

get_ip_idx_complete_example :
    get_ip_idx two_nets ten host ≡ done (pos (total_before 1 two_nets + offset_of subnet_b host))
get_ip_idx_complete_example =
    get_ip_idx_complete ten host 1 subnet_b two_nets-IsUniform two_nets-IsValid (omega arith)
      (omega arith) refl refl
