-- ===== src/Flow/Effect.antt =====
-- What counting a flow changes, and what it leaves alone.
use flowstatd.Base.{
  ℕ, zero, suc, ◌<◌, ◌≡◌, ◌≢◌, ◌⊎◌, refl, arith, ==_iff, inl, inr, length, get_elem?, set,
  get_elem?-some, get_elem?-set_self, get_elem?-set_ne, All-get_elem?, done, Returns, some, ℤ, pos,
  negsuc,
}
use flowstatd.Base.Words.{word32}
use flowstatd.Lookup.{get_ip_idx, ret_not_in_mynet}
use flowstatd.Lookup.Index.{total}
use flowstatd.Lookup.Laws.{Answers, get_ip_idx-Answers}
use flowstatd.Clock.{Tm, Platform, NfTimeInfo, convert_nf_time}
use flowstatd.Flow.{
  Hour, Totals, HostFlow, Direction, up, down, add64, add_hour, add_totals, add_flow, count_flow,
  Role, sent, received, ignored, role, FlowState, record_flow, apply_role, insert_nf_info,
}
use flowstatd.Flow.Shape.{IsSound, IsBalanced, convert_nf_time-lt}

abbrev pub hour_of : Direction → Hour → ℕ
hour_of up h = h.upload
hour_of down h = h.download

abbrev pub total_of : Direction → Totals → ℕ
total_of up t = t.upload
total_of down t = t.download

abbrev pub opposite : Direction → Direction
opposite up = down
opposite down = up

-- The entry at `idx` is charged for a flow at an hour; the other entries and the rest of the state
-- are as before.
pub record Charged (dir : Direction) (idx addr bytes hour : ℕ) (st st' : FlowState) : Type 0 where
  pub before : HostFlow
  pub after : HostFlow
  pub hour_before : Hour
  pub hour_after : Hour
  pub at_before : get_elem? st.ip_table idx ≡ some before
  pub at_after : get_elem? st'.ip_table idx ≡ some after
  pub addressed : after.sin_addr ≡ addr
  pub at_hour_before : get_elem? before.hflow hour ≡ some hour_before
  pub at_hour_after : get_elem? after.hflow hour ≡ some hour_after
  pub hour_grows : hour_of dir hour_after ≡ add64 (hour_of dir hour_before) bytes
  pub hour_opposite : hour_of (opposite dir) hour_after ≡ hour_of (opposite dir) hour_before
  pub other_hours : (k : ℕ) → hour ≢ k → get_elem? after.hflow k ≡ get_elem? before.hflow k
  pub total_grows : total_of dir after.nflow ≡ add64 (total_of dir before.nflow) bytes
  pub total_opposite : total_of (opposite dir) after.nflow ≡ total_of (opposite dir) before.nflow
  pub sum_grows : after.nflow.sum ≡ add64 before.nflow.sum bytes
  pub others : (j : ℕ) → idx ≢ j → get_elem? st'.ip_table j ≡ get_elem? st.ip_table j
  pub same_nets : st'.nets ≡ st.nets
  pub same_my_net : st'.my_net ≡ st.my_net
  pub same_localtm : st'.localtm ≡ st.localtm

-- The entry after a flow has been added, with the hour that it is added to.
abbrev charged_flow : Direction → ℕ → ℕ → ℕ → HostFlow → Hour → HostFlow
charged_flow dir addr hour bytes host h = record {
  sin_addr = addr;
  hflow = set host.hflow hour (add_hour dir bytes h);
  nflow = add_totals dir bytes host.nflow;
}

hour_of-add_hour :
    (dir : Direction) (bytes : ℕ) (h : Hour)
    → (hour_of dir (add_hour dir bytes h) ≡ add64 (hour_of dir h) bytes)
      × (hour_of (opposite dir) (add_hour dir bytes h) ≡ hour_of (opposite dir) h)
unfolding add_hour
hour_of-add_hour up bytes h = (refl, refl)
hour_of-add_hour down bytes h = (refl, refl)

total_of-add_totals :
    (dir : Direction) (bytes : ℕ) (t : Totals)
    → (total_of dir (add_totals dir bytes t) ≡ add64 (total_of dir t) bytes)
      × (total_of (opposite dir) (add_totals dir bytes t) ≡ total_of (opposite dir) t)
      × ((add_totals dir bytes t).sum ≡ add64 t.sum bytes)
unfolding add_totals
total_of-add_totals up bytes t = (refl, refl, refl)
total_of-add_totals down bytes t = (refl, refl, refl)

module _ (dir : Direction) (idx addr bytes : ℕ) (tm : Tm) (st : FlowState) (sound : IsSound st)
    (inside : idx < total st.nets) (h : tm.tm_hour < 24)
    (today : tm.tm_mday ≡ st.localtm.tm_mday) where
  record_flow-Charged :
      Returns (record_flow dir idx addr bytes tm st) (Charged dir idx addr bytes tm.tm_hour st)
  unfolding record_flow count_flow add_flow
  record_flow-Charged =
      let fits : idx < length st.ip_table = omega (arith, sound.table.size) in
      let (host, e) = get_elem?-some st.ip_table idx fits in
      let b = All-get_elem? IsBalanced st.ip_table idx sound.table.balanced e in
      let fits_hour : tm.tm_hour < length host.hflow = omega (arith, b.hours) in
      let (v, ev) = get_elem?-some host.hflow tm.tm_hour fits_hour in
      let host' = charged_flow dir addr tm.tm_hour bytes host v in
      let totals = total_of-add_totals dir bytes host.nflow in
      rw ((==_iff tm.tm_mday st.localtm.tm_mday).1 today, e, ev)
        (record {
          before = host;
          after = host';
          hour_before = v;
          hour_after = add_hour dir bytes v;
          at_before = e;
          at_after = get_elem?-set_self st.ip_table idx host' fits;
          addressed = refl;
          at_hour_before = ev;
          at_hour_after = get_elem?-set_self host.hflow tm.tm_hour _ fits_hour;
          hour_grows = (hour_of-add_hour dir bytes v).0;
          hour_opposite = (hour_of-add_hour dir bytes v).1;
          other_hours = λ k ne. get_elem?-set_ne host.hflow tm.tm_hour k _ ne;
          total_grows = totals.0;
          total_opposite = totals.1;
          sum_grows = totals.2;
          others = λ j ne. get_elem?-set_ne st.ip_table idx j host' ne;
          same_nets = refl;
          same_my_net = refl;
          same_localtm = refl;
        })

module _ (platform : Platform) (src dst bytes : ℕ) (info : NfTimeInfo) (st : FlowState)
    (sound : IsSound st) (fs : src < word32) (fd : dst < word32) where
  -- A flow from an address of the table to one outside `myNetwork` and the subnets, where `localtime_r`
  -- gives the day of the counters for the time that `ConvertNfTime` reads, is charged to its source, as
  -- upload, at the hour that `localtime_r` gives.
  pub insert_nf_info_outgoing :
      (i : ℕ)
      → get_ip_idx st.nets st.my_net src ≡ done (pos i)
      → get_ip_idx st.nets st.my_net dst ≡ done ret_not_in_mynet
      → (convert_nf_time platform info).tm_mday ≡ st.localtm.tm_mday
      → Returns
          (insert_nf_info platform src dst bytes info st)
          (Charged up i src bytes (convert_nf_time platform info).tm_hour st)
  unfolding insert_nf_info role apply_role
  insert_nf_info_outgoing i ei eo today =
      let (_, _, _, _, _, inside) : Answers st.nets st.my_net src (pos i) =
        rw ei at (get_ip_idx-Answers st.nets st.my_net src sound.nets_valid sound.small fs) in
      rw (ei, eo)
        (record_flow-Charged up i src bytes (convert_nf_time platform info) st sound inside
          (convert_nf_time-lt platform info) today)

  -- A flow from outside to an address of the table, where `localtime_r` gives the day of the counters for
  -- the time that `ConvertNfTime` reads, is charged to its destination, as download, at the hour that
  -- `localtime_r` gives.
  pub insert_nf_info_incoming :
      (j : ℕ)
      → get_ip_idx st.nets st.my_net src ≡ done ret_not_in_mynet
      → get_ip_idx st.nets st.my_net dst ≡ done (pos j)
      → (convert_nf_time platform info).tm_mday ≡ st.localtm.tm_mday
      → Returns
          (insert_nf_info platform src dst bytes info st)
          (Charged down j dst bytes (convert_nf_time platform info).tm_hour st)
  unfolding insert_nf_info role apply_role
  insert_nf_info_incoming j eo ej today =
      let (_, _, _, _, _, inside) : Answers st.nets st.my_net dst (pos j) =
        rw ej at (get_ip_idx-Answers st.nets st.my_net dst sound.nets_valid sound.small fd) in
      rw (eo, ej)
        (record_flow-Charged down j dst bytes (convert_nf_time platform info) st sound inside
          (convert_nf_time-lt platform info) today)

-- No end of the flow is outside the networks, or no end has an entry in the table.
abbrev pub IsInternal : ℤ → ℤ → Type 0
IsInternal a b = (a ≢ ret_not_in_mynet) × (b ≢ ret_not_in_mynet)

abbrev pub HasNoEntry : ℤ → ℤ → Type 0
HasNoEntry (negsuc c) (negsuc d) = Unit
HasNoEntry a b = ⊥

role_ignored : (a b : ℤ) → IsInternal a b ⊎ HasNoEntry a b → role a b ≡ ignored
unfolding role
role_ignored (pos i) (pos j) h = refl
role_ignored (pos i) (negsuc zero) h = refl
role_ignored (pos i) (negsuc (suc zero)) (inl h) = absurd (h.1 refl)
role_ignored (pos i) (negsuc (suc zero)) (inr h) = absurd h
role_ignored (pos i) (negsuc (suc (suc c))) h = refl
role_ignored (negsuc zero) b h = refl
role_ignored (negsuc (suc zero)) (pos j) (inl h) = absurd (h.0 refl)
role_ignored (negsuc (suc zero)) (pos j) (inr h) = absurd h
role_ignored (negsuc (suc zero)) (negsuc c) h = refl
role_ignored (negsuc (suc (suc c))) b h = refl

record_flow_other_day :
    (dir : Direction) (idx addr bytes : ℕ) (tm : Tm) (st : FlowState)
    → tm.tm_mday ≢ st.localtm.tm_mday
    → record_flow dir idx addr bytes tm st ≡ done st
unfolding record_flow
record_flow_other_day dir idx addr bytes tm st ne = ground arith

apply_role_other_day :
    (r : Role) (src dst bytes : ℕ) (tm : Tm) (st : FlowState)
    → tm.tm_mday ≢ st.localtm.tm_mday
    → apply_role r src dst bytes tm st ≡ done st
unfolding apply_role
apply_role_other_day (sent i) src dst bytes tm st ne = record_flow_other_day up i src bytes tm st ne
apply_role_other_day (received j) src dst bytes tm st ne =
    record_flow_other_day down j dst bytes tm st ne
apply_role_other_day ignored src dst bytes tm st ne = refl

-- A flow is not counted, and the state stays as it is, if it began on another day of the month, if
-- neither end is outside the networks, or if neither end has an entry in the table.
pub insert_nf_info_uncounted :
    (platform : Platform) (src dst bytes : ℕ) (info : NfTimeInfo) (st : FlowState) (a b : ℤ)
    → get_ip_idx st.nets st.my_net src ≡ done a
    → get_ip_idx st.nets st.my_net dst ≡ done b
    → ((convert_nf_time platform info).tm_mday ≢ st.localtm.tm_mday)
      ⊎ (IsInternal a b ⊎ HasNoEntry a b)
    → insert_nf_info platform src dst bytes info st ≡ done st
unfolding insert_nf_info apply_role
insert_nf_info_uncounted platform src dst bytes info st a b ea eb (inl ne) =
    rw (ea, eb)
      (apply_role_other_day (role a b) src dst bytes (convert_nf_time platform info) st ne)
insert_nf_info_uncounted platform src dst bytes info st a b ea eb (inr h) =
    rw (ea, eb, role_ignored a b h)
      (apply_role_ignored src dst bytes (convert_nf_time platform info) st)
  where
    apply_role_ignored :
        (src dst bytes : ℕ) (tm : Tm) (st : FlowState)
        → apply_role ignored src dst bytes tm st ≡ done st
    apply_role_ignored src dst bytes tm st = refl
