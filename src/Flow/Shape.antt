-- ===== src/Flow/Shape.antt =====
-- The invariant of the counters, and that counting a flow keeps it and stays inside the arrays.
use flowstatd.Base.{
  ℕ, zero, suc, ◌+◌, ◌%◌, ◌<◌, ◌≡◌, arith, ◌==◌, Bool-cases, inl, inr, List, [], ◌∷◌, length,
  get_elem?, set, get_elem?-some, length-set, All, All-get_elem?, All-set, Returns, >>=-Returns,
  some, ℤ, pos, negsuc, ◌∙◌,
}
use flowstatd.Base.Words.{word32, word64}
use flowstatd.Subnet.Shape.{IsValid}
use flowstatd.Lookup.{get_ip_idx}
use flowstatd.Lookup.Index.{total}
use flowstatd.Lookup.Laws.{Answers, get_ip_idx-Answers}
use flowstatd.Clock.{Tm, Platform, NfTimeInfo, convert_nf_time}
use flowstatd.Flow.{
  Hour, HostFlow, Direction, up, down, add64, add_flow, count_flow, Role, sent, received, ignored,
  role, FlowState, record_flow, apply_role, insert_nf_info,
}

-- The bytes of a day, by direction.
abbrev pub uploads : List Hour → ℕ
uploads [] = 0
uploads (h ∷ hs) = h.upload + uploads hs

abbrev pub downloads : List Hour → ℕ
downloads [] = 0
downloads (h ∷ hs) = h.download + downloads hs

-- An entry has 24 hours, and its running totals are, modulo 2^64, those of its hours.
pub record IsBalanced (host : HostFlow) : Type 0 where
  pub hours : length host.hflow ≡ 24
  pub uploaded : host.nflow.upload % word64 ≡ uploads host.hflow % word64
  pub downloaded : host.nflow.download % word64 ≡ downloads host.hflow % word64
  pub summed : host.nflow.sum % word64 ≡ (host.nflow.upload + host.nflow.download) % word64

uploads-set :
    (hs : List Hour) (i : ℕ) (h v : Hour)
    → get_elem? hs i ≡ some h
    → uploads (set hs i v) + h.upload ≡ uploads hs + v.upload
uploads-set [] i h v e = cc
uploads-set (x ∷ hs) zero h v e = ground arith
uploads-set (x ∷ hs) (suc i) h v e = omega (arith, uploads-set hs i h v e)

downloads-set :
    (hs : List Hour) (i : ℕ) (h v : Hour)
    → get_elem? hs i ≡ some h
    → downloads (set hs i v) + h.download ≡ downloads hs + v.download
downloads-set [] i h v e = cc
downloads-set (x ∷ hs) zero h v e = ground arith
downloads-set (x ∷ hs) (suc i) h v e = omega (arith, downloads-set hs i h v e)

-- Counting a flow at an hour of the day keeps an entry balanced.
pub add_flow-IsBalanced :
    (dir : Direction) (addr hour bytes : ℕ) (host : HostFlow)
    → IsBalanced host
    → hour < 24
    → Returns (add_flow dir addr hour bytes host) IsBalanced
unfolding add_flow
add_flow-IsBalanced up addr hour bytes host b h =
    let (v, e) = get_elem?-some host.hflow hour (omega (arith, b.hours)) in
    let v' = record v { upload = add64 v.upload bytes } in
    rw e (
      omega (
        arith,
        length-set host.hflow hour v',
        uploads-set host.hflow hour v v' e,
        downloads-set host.hflow hour v v' e,
      ))
add_flow-IsBalanced down addr hour bytes host b h =
    let (v, e) = get_elem?-some host.hflow hour (omega (arith, b.hours)) in
    let v' = record v { download = add64 v.download bytes } in
    rw e (
      omega (
        arith,
        length-set host.hflow hour v',
        uploads-set host.hflow hour v v' e,
        downloads-set host.hflow hour v v' e,
      ))

-- A table of balanced entries, one for each address of the subnets.
pub record IsValidTable (n : ℕ) (table : List HostFlow) : Type 0 where
  pub size : length table ≡ n
  pub balanced : All IsBalanced table

pub count_flow-IsValidTable :
    (dir : Direction) (idx addr hour bytes n : ℕ) (table : List HostFlow)
    → IsValidTable n table
    → idx < n
    → hour < 24
    → Returns (count_flow dir idx addr hour bytes table) (IsValidTable n)
unfolding count_flow
count_flow-IsValidTable dir idx addr hour bytes n table valid inside h =
    let (host, e) = get_elem?-some table idx (omega (arith, valid.size)) in
    let b = All-get_elem? IsBalanced table idx valid.balanced e in
    rw e (
      >>=-Returns (add_flow dir addr hour bytes host) _ IsBalanced (IsValidTable n)
        (add_flow-IsBalanced dir addr hour bytes host b h)
        (λ host' b'. record {
          size = length-set table idx host' ∙ valid.size;
          balanced = All-set IsBalanced table idx host' valid.balanced b';
        }))

-- The invariant of the flow counters: valid subnets of fewer than 2^31 addresses, and a balanced entry
-- for each of them.
pub record IsSound (st : FlowState) : Type 0 where
  pub nets_valid : All IsValid st.nets
  pub small : total st.nets < 0x8000_0000
  pub table : IsValidTable (total st.nets) st.ip_table

record_flow-IsSound :
    (dir : Direction) (idx addr bytes : ℕ) (tm : Tm) (st : FlowState)
    → IsSound st
    → idx < total st.nets
    → tm.tm_hour < 24
    → Returns (record_flow dir idx addr bytes tm st) IsSound
unfolding record_flow
record_flow-IsSound dir idx addr bytes tm st sound inside h =
    elim (Bool-cases (tm.tm_mday == st.localtm.tm_mday)) [
      | inr other ↦ rw other sound
      | inl today ↦ rw today (
          >>=-Returns (count_flow dir idx addr tm.tm_hour bytes st.ip_table) _
            (IsValidTable (total st.nets)) IsSound
            (count_flow-IsValidTable dir idx addr tm.tm_hour bytes _ st.ip_table sound.table inside
              h)
            (λ table v. record { nets_valid = sound.nets_valid; small = sound.small; table = v }))
    ]

-- An index that `getIPIdx` gave is inside the table.
abbrev pub Inside : ℕ → Role → Type 0
Inside n (sent i) = i < n
Inside n (received i) = i < n
Inside n ignored = Unit

role-Inside :
    (st : FlowState) (src dst : ℕ) (a b : ℤ)
    → Answers st.nets st.my_net src a
    → Answers st.nets st.my_net dst b
    → Inside (total st.nets) (role a b)
unfolding role
role-Inside st src dst (pos i) (pos j) p q = tt
role-Inside st src dst (pos i) (negsuc zero) p q = tt
role-Inside st src dst (pos i) (negsuc (suc zero)) (k, s, _, _, _, inside) q = inside
role-Inside st src dst (pos i) (negsuc (suc (suc c))) p q = tt
role-Inside st src dst (negsuc zero) b p q = tt
role-Inside st src dst (negsuc (suc zero)) (pos j) p (k, s, _, _, _, inside) = inside
role-Inside st src dst (negsuc (suc zero)) (negsuc c) p q = tt
role-Inside st src dst (negsuc (suc (suc c))) b p q = tt

apply_role-IsSound :
    (r : Role) (src dst bytes : ℕ) (tm : Tm) (st : FlowState)
    → IsSound st
    → Inside (total st.nets) r
    → tm.tm_hour < 24
    → Returns (apply_role r src dst bytes tm st) IsSound
unfolding apply_role
apply_role-IsSound (sent i) src dst bytes tm st sound inside h =
    record_flow-IsSound up i src bytes tm st sound inside h
apply_role-IsSound (received j) src dst bytes tm st sound inside h =
    record_flow-IsSound down j dst bytes tm st sound inside h
apply_role-IsSound ignored src dst bytes tm st sound inside h = sound

pub convert_nf_time-lt :
    (platform : Platform) (info : NfTimeInfo) → (convert_nf_time platform info).tm_hour < 24
unfolding convert_nf_time
convert_nf_time-lt platform info = platform.hour-lt _

-- In a sound state, counting any flow between two 32-bit addresses returns, so that no access leaves
-- an array, and leaves a sound state.
pub insert_nf_info-IsSound :
    (platform : Platform) (src dst bytes : ℕ) (info : NfTimeInfo) (st : FlowState)
    → IsSound st
    → src < word32
    → dst < word32
    → Returns (insert_nf_info platform src dst bytes info st) IsSound
unfolding insert_nf_info
insert_nf_info-IsSound platform src dst bytes info st sound fs fd =
    let answers_src = get_ip_idx-Answers st.nets st.my_net src sound.nets_valid sound.small fs in
    let answers_dst = get_ip_idx-Answers st.nets st.my_net dst sound.nets_valid sound.small fd in
    let tm = convert_nf_time platform info in
    >>=-Returns (get_ip_idx st.nets st.my_net src) _ (Answers st.nets st.my_net src) IsSound
      answers_src
      (λ a p.
        >>=-Returns (get_ip_idx st.nets st.my_net dst) _ (Answers st.nets st.my_net dst) IsSound
          answers_dst
          (λ b q.
            apply_role-IsSound (role a b) src dst bytes tm st sound (role-Inside st src dst a b p q)
              (convert_nf_time-lt platform info)))
