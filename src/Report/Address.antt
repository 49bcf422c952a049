-- ===== src/Report/Address.antt =====
-- `GetByIP`: the answer for one address.
use flowstatd.Base.{
  ℕ, zero, suc, ◌+◌, ◌%◌, ◌≤◌, ◌<◌, ◌≡◌, ◌≢◌, refl, ap, ◌∙◌, arith, ◌==◌, ==_iff, if◌then◌else◌,
  bit_and, Bool, true, false, List, [], ◌∷◌, length, drop, get_elem?, get_elem?-some, All,
  All-get_elem?, some, done, Returns, Bool-cases, inl, inr,
}
use flowstatd.Base.Words.{word32, word64}
use flowstatd.Subnet.{Subnet}
use flowstatd.Lookup.Search.{IsUniform}
use flowstatd.Lookup.Index.{total, total_before, offset_of, hit_index_exact}
use flowstatd.Lookup.Laws.{get_ip_idx_complete}
use flowstatd.Flow.{Hour, HostFlow, FlowState, add64}
use flowstatd.Flow.Shape.{uploads, downloads, IsBalanced, IsSound}
use flowstatd.Report.{
  HourEntry, hour_entry, hour_entries, is_our_net, load_index, reply_for, get_by_ip, IpReply,
  no_data, flows,
}
use flowstatd.Report.Whitelist.{HasEnd, hides, is_hidden_lem}

is_our_net-some :
    (nets : List Subnet) (ipaddr : ℕ)
    → is_our_net nets ipaddr ≡ true
    → (k : ℕ) × (s : Subnet) × (get_elem? nets k ≡ some s) × (bit_and ipaddr s.mask ≡ s.net)
unfolding is_our_net
is_our_net-some [] ipaddr h = cc
is_our_net-some (s ∷ nets) ipaddr h = elim (Bool-cases (bit_and ipaddr s.mask == s.net)) [
  | inl e ↦ (0, s, refl, (==_iff _ _).0 e)
  | inr e ↦
      let later : is_our_net nets ipaddr ≡ true = rw e at h in
      let (k, t, at_k, covered) = is_our_net-some nets ipaddr later in (suc k, t, at_k, covered)
]

is_our_net-none :
    (nets : List Subnet) (ipaddr : ℕ)
    → is_our_net nets ipaddr ≡ false
    → All (λ s. bit_and ipaddr s.mask ≢ s.net) nets
unfolding is_our_net
is_our_net-none [] ipaddr h = tt
is_our_net-none (s ∷ nets) ipaddr h = elim (Bool-cases (bit_and ipaddr s.mask == s.net)) [
  | inl e ↦ absurd (ground arith)
  | inr e ↦ ((λ same. ground arith), is_our_net-none nets ipaddr (rw e at h))
]

-- The entries for the hours from `i` on, after a total of `t`.
abbrev pub rows : Bool → ℕ → ℕ → List Hour → List HourEntry
rows hidden i t [] = []
rows hidden i t (h ∷ hs) =
    hour_entry hidden i h (add64 t (add64 h.upload h.download))
    ∷ rows hidden (i + 1) (add64 t (add64 h.upload h.download)) hs

drop_step :
    (hs : List Hour) (i : ℕ) {h : Hour} → get_elem? hs i ≡ some h → drop i hs ≡ h ∷ drop (suc i) hs
drop_step [] i e = cc
drop_step (x ∷ hs) zero e = cc
drop_step (x ∷ hs) (suc i) e = drop_step hs i e

drop_next :
    (hs : List Hour) (i n : ℕ) {h : Hour}
    → get_elem? hs i ≡ some h
    → n ≡ suc i
    → drop i hs ≡ h ∷ drop n hs
drop_next hs i n e next = rw next (drop_step hs i e)

drop_all : (hs : List Hour) (i : ℕ) → length hs ≤ i → drop i hs ≡ []
drop_all [] zero e = refl
drop_all [] (suc i) e = refl
drop_all (h ∷ hs) zero e = absurd (omega arith)
drop_all (h ∷ hs) (suc i) e = drop_all hs i (omega arith)

hour_entries-rows :
    (hidden : Bool) (hs : List Hour) (rounds i t : ℕ)
    → i + rounds ≡ length hs
    → hour_entries hidden hs rounds i t ≡ done (rows hidden i t (drop i hs))
unfolding hour_entries
hour_entries-rows hidden hs zero i t e = rw (drop_all hs i (omega arith)) refl
hour_entries-rows hidden hs (suc rounds) i t e =
    let (h, eh) = get_elem?-some hs i (omega arith) in
    rw
      (
        eh,
        hour_entries-rows hidden hs rounds (i + 1) (add64 t (add64 h.upload h.download))
            (omega arith),
        drop_next hs i (i + 1) eh (omega arith),
      )
      refl

-- `incrementalTotal` of the last entry.
abbrev pub last_total : ℕ → List HourEntry → ℕ
last_total t [] = t
last_total t (e ∷ es) = last_total e.incremental_total es

last_total-rows :
    (i t : ℕ) (hs : List Hour)
    → last_total t (rows false i t hs) % word64 ≡ (t + uploads hs + downloads hs) % word64
unfolding hour_entry
last_total-rows i t [] = omega arith
last_total-rows i t (h ∷ hs) =
    omega (arith, last_total-rows (i + 1) (add64 t (add64 h.upload h.download)) hs)

length-rows : (hidden : Bool) (i t : ℕ) (hs : List Hour) → length (rows hidden i t hs) ≡ length hs
length-rows hidden i t [] = refl
length-rows hidden i t (h ∷ hs) = ap suc (length-rows hidden (i + 1) _ hs)

-- The entries name the hours from `i` on, in order, and hold zeros.
abbrev pub AreBlank : ℕ → List HourEntry → Type 0
AreBlank i [] = Unit
AreBlank i (e ∷ es) =
    (e.hour ≡ i)
    × (e.upload ≡ 0)
    × (e.download ≡ 0)
    × (e.total ≡ 0)
    × (e.incremental_total ≡ 0)
    × AreBlank (i + 1) es

-- The entries name the hours from `i` on, in order, and hold what these hours count, each with the sum of
-- all bytes up to its end, `before` of which came before the hour `i`.
abbrev pub AreHours : ℕ → ℕ → List Hour → List HourEntry → Type 0
AreHours i before [] [] = Unit
AreHours i before (h ∷ hs) (e ∷ es) =
    (e.hour ≡ i)
    × (e.upload ≡ h.upload)
    × (e.download ≡ h.download)
    × (e.total ≡ (h.upload + h.download) % word64)
    × (e.incremental_total ≡ (before + h.upload + h.download) % word64)
    × AreHours (i + 1) (before + h.upload + h.download) hs es
AreHours i before _ _ = ⊥

rows-AreBlank : (i t : ℕ) (hs : List Hour) → AreBlank i (rows true i t hs)
unfolding hour_entry
rows-AreBlank i t [] = tt
rows-AreBlank i t (h ∷ hs) = (refl, refl, refl, refl, refl, rows-AreBlank (i + 1) _ hs)

rows-AreHours :
    (i t before : ℕ) (hs : List Hour)
    → t ≡ before % word64
    → AreHours i before hs (rows false i t hs)
unfolding hour_entry
rows-AreHours i t before [] e = tt
rows-AreHours i t before (h ∷ hs) e =
    let sum : add64 t (add64 h.upload h.download) ≡ (before + h.upload + h.download) % word64 =
      omega (arith, e) in
    (refl, refl, refl, refl, sum, rows-AreHours (i + 1) _ (before + h.upload + h.download) hs sum)

-- The sum of the hours, modulo 2^64, is the day's.
hours_sum :
    (host : HostFlow)
    → IsBalanced host
    → last_total 0 (rows false 0 0 host.hflow) % word64 ≡ host.nflow.sum % word64
hours_sum host b =
    let whole = last_total-rows 0 0 host.hflow in
    omega (arith, whole, b.uploaded, b.downloaded, b.summed)

-- The body of an answer: the 24 hours in order, blank if hidden; else with what the entry counts in each,
-- and the day's total, to which the last `incrementalTotal` comes.
abbrev pub IsAnswer : Bool → HostFlow → ℕ → List HourEntry → Type 0
IsAnswer true host total_flow es = (length es ≡ 24) × (total_flow ≡ 0) × AreBlank 0 es
IsAnswer false host total_flow es =
    (length es ≡ 24)
    × AreHours 0 0 host.hflow es
    × (total_flow ≡ host.nflow.sum)
    × (last_total 0 es % word64 ≡ total_flow % word64)

abbrev pub IsReply : Bool → FlowState → ℕ → IpReply → Type 0
IsReply hidden st ipaddr no_data = All (λ s. bit_and ipaddr s.mask ≢ s.net) st.nets
IsReply hidden st ipaddr (flows total_flow es) =
    (k : ℕ) × (s : Subnet) × (host : HostFlow) × (get_elem? st.nets k ≡ some s)
    × (bit_and ipaddr s.mask ≡ s.net)
    × (get_elem? st.ip_table (total_before k st.nets + offset_of s ipaddr) ≡ some host)
    × IsAnswer hidden host total_flow es

rows-IsAnswer :
    (hidden : Bool) (host : HostFlow)
    → IsBalanced host
    → IsAnswer hidden host (if hidden then 0 else host.nflow.sum) (rows hidden 0 0 host.hflow)
rows-IsAnswer true host b =
    (length-rows true 0 0 host.hflow ∙ b.hours, refl, rows-AreBlank 0 0 host.hflow)
rows-IsAnswer false host b = (
  length-rows false 0 0 host.hflow ∙ b.hours,
  rows-AreHours 0 0 0 host.hflow refl,
  refl,
  hours_sum host b,
)

-- On sound counters, with one mask for all subnets in ascending order and a free cell in the
-- whitelist, `GetByIP` answers every address. `E_NO_DATA` is answered only if no subnet holds the
-- address. Else the answer is made from the entry at the place of the address in its subnet's block,
-- and lists the 24 hours in order: with zeros, and a total of zero, if the address is an entry of the
-- whitelist before its first free cell and not all is shown. Else each hour has the upload and the download that the entry counts in it, their sum, and the sum of
-- all bytes up to its end, both modulo 2^64; the total is the day's, and the last of those sums is it
-- modulo 2^64.
pub get_by_ip-IsReply :
    {mask : ℕ} (show_all : Bool) (ws : List ℕ) (ipaddr : ℕ) (st : FlowState)
    → HasEnd ws
    → IsUniform mask st.nets
    → IsSound st
    → ipaddr < word32
    → Returns (get_by_ip show_all ws ipaddr st) (IsReply (hides show_all ws ipaddr) st ipaddr)
unfolding get_by_ip reply_for load_index
get_by_ip-IsReply {mask} show_all ws ipaddr st ended uniform sound fits =
    elim (Bool-cases (is_our_net st.nets ipaddr)) [
      | inr outside ↦ rw outside (is_our_net-none st.nets ipaddr outside)
      | inl inside ↦
          let (k, s, at_k, covered) = is_our_net-some st.nets ipaddr inside in
          let same : bit_and ipaddr mask ≡ s.net = rw (uniform.same k s at_k) at covered in
          let index =
            get_ip_idx_complete st.my_net ipaddr k s uniform sound.nets_valid sound.small fits at_k
              same in
          let bound : total_before k st.nets + offset_of s ipaddr < total st.nets =
            (hit_index_exact st.nets ipaddr k s sound.nets_valid sound.small fits at_k).1 in
          let (host, eh) =
            get_elem?-some st.ip_table (total_before k st.nets + offset_of s ipaddr)
              (omega (arith, bound, sound.table.size)) in
          let b = All-get_elem? IsBalanced st.ip_table _ sound.table.balanced eh in
          rw
            (
              inside,
              index,
              is_hidden_lem show_all ws ipaddr ended,
              eh,
              hour_entries-rows (hides show_all ws ipaddr) host.hflow 24 0 0
                  (omega (arith, b.hours)),
            )
            (k, s, host, at_k, covered, eh, rows-IsAnswer (hides show_all ws ipaddr) host b)
    ]
