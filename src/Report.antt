-- ===== src/Report.antt =====
-- src/command.c: the answers to `getFlow`, `showOverList` and `showTopList`. An answer holds numbers
-- of bytes where the JSON has the number divided by `MBYTES`, and addresses where it has their text.
pub mod Whitelist
pub mod Order
pub mod Over
pub mod Top
pub mod Address
pub mod Hidden
use mathlib.Core.List.{Perm}
use flowstatd.Base.{
  ℕ, zero, suc, ◌+◌, ◌/◌, ◌%◌, ◌≤◌, leb, ltb, ◌==◌, ◌||◌, not, if◌then◌else◌, bit_and, compare,
  Ordering, Bool, true, false, List, [], ◌∷◌, length, get_elem?, Run, done, undefined, ◌>>=◌, load,
  ℤ, pos, negsuc,
}
use flowstatd.Base.Words.{word32}
use flowstatd.Subnet.{Subnet}
use flowstatd.Lookup.{get_ip_idx}
use flowstatd.Flow.{Hour, Totals, HostFlow, FlowState, add64}

abbrev pub mbytes : ℕ
mbytes = 1_000_000

-- The loop over `whitelist`, from the cells left. The cell is read before `j < MAX_WHITELIST` is
-- tested, so a list with no 0 in it is read past its end.
unfoldable pub in_whitelist : List ℕ → ℕ → Run Bool
in_whitelist [] addr = undefined
in_whitelist (w ∷ ws) addr =
    if w == 0 then done false else if addr == w then done true else in_whitelist ws addr

-- `isShow`
unfoldable pub is_shown : Bool → List ℕ → HostFlow → Run Bool
is_shown true whitelist host = done true
is_shown false whitelist host = in_whitelist whitelist host.sin_addr >>= λ b. done (not b)

-- `HostFlowCmp`
unfoldable pub host_flow_cmp : HostFlow → HostFlow → ℤ
host_flow_cmp a b = elim (compare b.nflow.sum a.nflow.sum) [
  | Ordering.gt ↦ pos 1
  | Ordering.eq ↦ pos 0
  | Ordering.lt ↦ negsuc 0
]

-- A comparison that does not say "above".
abbrev pub IsNotAbove : ℤ → Type 0
IsNotAbove (pos zero) = Unit
IsNotAbove (pos (suc n)) = ⊥
IsNotAbove (negsuc n) = Unit

-- What `qsort` promises of a comparison: the elements in some order, in which none is above the next.
abbrev pub IsOrdered : (HostFlow → HostFlow → ℤ) → List HostFlow → Type 0
IsOrdered cmp [] = Unit
IsOrdered cmp (a ∷ []) = Unit
IsOrdered cmp (a ∷ b ∷ hosts) = IsNotAbove (cmp a b) × IsOrdered cmp (b ∷ hosts)

pub record Qsort : Type 0 where
  pub qsort : List HostFlow → List HostFlow
  pub qsort-perm : (hosts : List HostFlow) → Perm (qsort hosts) hosts
  pub qsort-IsOrdered : (hosts : List HostFlow) → IsOrdered host_flow_cmp (qsort hosts)

-- An entry of `data` in an answer that lists addresses.
pub record FlowEntry : Type 0 where
  pub rank : ℕ
  pub ip : ℕ
  pub upload : ℕ
  pub download : ℕ
  pub total : ℕ

unfoldable pub flow_entry : ℕ → HostFlow → FlowEntry
flow_entry rank host = record {
  rank = rank;
  ip = host.sin_addr;
  upload = host.nflow.upload;
  download = host.nflow.download;
  total = host.nflow.sum;
}

-- `retCode` and `data`.
pub data Listing : Type 0 where
  invalid_param : Listing
  listing : List FlowEntry → Listing

-- `if (isShow) …`: the entry before the rest, with the rank that it raises.
unfoldable pub list_entry : Bool → ℕ → HostFlow → (ℕ → Run (List FlowEntry)) → Run (List FlowEntry)
list_entry true rank host rest =
    rest ((rank + 1) % word32) >>= λ entries. done (flow_entry ((rank + 1) % word32) host ∷ entries)
list_entry false rank host rest = rest rank

-- The loop of `GetByFlow` over `ipTable[i..]`, which has no test of `i`.
unfoldable pub over_entries : Bool → List ℕ → ℕ → List HostFlow → ℕ → Run (List FlowEntry)
over_entries show_all whitelist over_mb [] rank = undefined
over_entries show_all whitelist over_mb (host ∷ hosts) rank =
    if leb over_mb (host.nflow.sum / mbytes)
    then (is_shown show_all whitelist host >>= λ shown.
        list_entry shown rank host (over_entries show_all whitelist over_mb hosts))
    else done []

-- `GetByFlow`; `overMB` is unsigned.
unfoldable pub get_by_flow : Qsort → Bool → List ℕ → ℕ → List HostFlow → Run Listing
get_by_flow q show_all whitelist over_mb ip_table =
    if over_mb == 0
    then done invalid_param
    else over_entries show_all whitelist over_mb (q.qsort ip_table) 0 >>= λ entries.
        done (listing entries)

-- The loop of `GetByTopN` over `ipTable[i..]`, which has no test of `i` either.
unfoldable pub top_entries : Bool → List ℕ → ℕ → List HostFlow → ℕ → Run (List FlowEntry)
top_entries show_all whitelist top_n [] rank = if ltb rank top_n then undefined else done []
top_entries show_all whitelist top_n (host ∷ hosts) rank =
    if ltb rank top_n
    then (is_shown show_all whitelist host >>= λ shown.
        list_entry shown rank host (top_entries show_all whitelist top_n hosts))
    else done []

-- `GetByTopN`; `topN` is unsigned.
unfoldable pub get_by_top_n : Qsort → Bool → List ℕ → ℕ → List HostFlow → Run Listing
get_by_top_n q show_all whitelist top_n ip_table =
    if top_n == 0 || leb (length ip_table) top_n
    then done invalid_param
    else top_entries show_all whitelist top_n (q.qsort ip_table) 0 >>= λ entries.
        done (listing entries)

-- An entry of `data` in the answer to `getFlow`.
pub record HourEntry : Type 0 where
  pub hour : ℕ
  pub upload : ℕ
  pub download : ℕ
  pub total : ℕ
  pub incremental_total : ℕ

pub data IpReply : Type 0 where
  no_data : IpReply
  flows : ℕ → List HourEntry → IpReply

unfoldable pub hour_entry : Bool → ℕ → Hour → ℕ → HourEntry
hour_entry true i h total_flow = record {
  hour = i;
  upload = 0;
  download = 0;
  total = 0;
  incremental_total = 0;
}
hour_entry false i h total_flow = record {
  hour = i;
  upload = h.upload;
  download = h.download;
  total = add64 h.upload h.download;
  incremental_total = total_flow;
}

-- The loop over the hours, for the rounds left, from the hour `i`.
unfoldable pub hour_entries : Bool → List Hour → ℕ → ℕ → ℕ → Run (List HourEntry)
hour_entries hidden hflow zero i total_flow = done []
hour_entries hidden hflow (suc rounds) i total_flow = load (get_elem? hflow i) >>= λ h.
    hour_entries hidden hflow rounds (i + 1) (add64 total_flow (add64 h.upload h.download))
    >>= λ rest. done (hour_entry hidden i h (add64 total_flow (add64 h.upload h.download)) ∷ rest)

-- `isOurNet`
unfoldable pub is_our_net : List Subnet → ℕ → Bool
is_our_net [] ipaddr = false
is_our_net (s ∷ nets) ipaddr = bit_and ipaddr s.mask == s.net || is_our_net nets ipaddr

-- `ipTable[ipIdx]`, with an `int` index.
unfoldable pub load_index : List HostFlow → ℤ → Run HostFlow
load_index table (pos i) = load (get_elem? table i)
load_index table (negsuc c) = undefined

-- `isWhitelist`
unfoldable pub is_hidden : Bool → List ℕ → ℕ → Run Bool
is_hidden true whitelist ipaddr = done false
is_hidden false whitelist ipaddr = in_whitelist whitelist ipaddr

-- The answer for an address of a subnet.
unfoldable pub reply_for : Bool → List ℕ → ℕ → FlowState → Run IpReply
reply_for show_all whitelist ipaddr st = do
  ip_idx ← get_ip_idx st.nets st.my_net ipaddr
  hidden ← is_hidden show_all whitelist ipaddr
  host ← load_index st.ip_table ip_idx
  entries ← hour_entries hidden host.hflow 24 0 0
  done (flows (if hidden then 0 else host.nflow.sum) entries)

-- `GetByIP`, for the address that `inet_addr` made of the text.
unfoldable pub get_by_ip : Bool → List ℕ → ℕ → FlowState → Run IpReply
get_by_ip show_all whitelist ipaddr st =
    if is_our_net st.nets ipaddr then reply_for show_all whitelist ipaddr st else done no_data
