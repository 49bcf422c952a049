-- ===== src/Flow/Kept.antt =====
-- What every call of `InsertNfInfoToIpTable` keeps.
use flowstatd.Base.{
  ℕ, ◌<◌, ◌≡◌, refl, ◌==◌, Bool-cases, inl, inr, Whenever, Whenever-Unit, >>=-Whenever,
  Returns-Ends, Ends-Whenever, Whenever-both, Whenever-weaken, ◌∙◌,
}
use flowstatd.Base.Words.{word32}
use flowstatd.Lookup.{get_ip_idx}
use flowstatd.Clock.{Tm, Platform, NfTimeInfo, convert_nf_time}
use flowstatd.Flow.{
  Direction, up, down, Role, sent, received, ignored, role, FlowState, count_flow, record_flow,
  apply_role, insert_nf_info,
}
use flowstatd.Flow.Shape.{IsSound, insert_nf_info-IsSound}

-- A property of the counters that no call makes false, for addresses of 32 bits.
abbrev pub Keeps : Platform → (FlowState → Type 0) → Type 0
Keeps platform P =
    (src dst bytes : ℕ) (info : NfTimeInfo) (st : FlowState)
    → src < word32
    → dst < word32
    → P st
    → Whenever (insert_nf_info platform src dst bytes info st) P

-- The configuration and the day are those of `st`.
abbrev pub IsSame : FlowState → FlowState → Type 0
IsSame st st' = (st'.nets ≡ st.nets) × (st'.my_net ≡ st.my_net) × (st'.localtm ≡ st.localtm)

record_flow-IsSame :
    (dir : Direction) (idx addr bytes : ℕ) (tm : Tm) (st : FlowState)
    → Whenever (record_flow dir idx addr bytes tm st) (IsSame st)
unfolding record_flow
record_flow-IsSame dir idx addr bytes tm st = elim (Bool-cases (tm.tm_mday == st.localtm.tm_mday)) [
  | inr e ↦ rw (e, record_flow) (refl, refl, refl)
  | inl e ↦
      rw (e, record_flow)
        (>>=-Whenever (count_flow dir idx addr tm.tm_hour bytes st.ip_table) _ (λ t. Unit {0})
          (IsSame st) (Whenever-Unit (count_flow dir idx addr tm.tm_hour bytes st.ip_table))
          (λ t u. (refl, refl, refl)))
]

apply_role-IsSame :
    (r : Role) (src dst bytes : ℕ) (tm : Tm) (st : FlowState)
    → Whenever (apply_role r src dst bytes tm st) (IsSame st)
unfolding apply_role
apply_role-IsSame (sent i) src dst bytes tm st = record_flow-IsSame up i src bytes tm st
apply_role-IsSame (received j) src dst bytes tm st = record_flow-IsSame down j dst bytes tm st
apply_role-IsSame ignored src dst bytes tm st = (refl, refl, refl)

insert_nf_info-IsSame :
    (platform : Platform) (src dst bytes : ℕ) (info : NfTimeInfo) (st : FlowState)
    → Whenever (insert_nf_info platform src dst bytes info st) (IsSame st)
unfolding insert_nf_info
insert_nf_info-IsSame platform src dst bytes info st =
    >>=-Whenever (get_ip_idx st.nets st.my_net src) _ (λ a. Unit {0}) (IsSame st)
      (Whenever-Unit (get_ip_idx st.nets st.my_net src))
      (λ a u.
        >>=-Whenever (get_ip_idx st.nets st.my_net dst) _ (λ b. Unit {0}) (IsSame st)
          (Whenever-Unit (get_ip_idx st.nets st.my_net dst))
          (λ b v. apply_role-IsSame (role a b) src dst bytes (convert_nf_time platform info) st))

-- Sound counters of given networks, on a given day.
abbrev pub IsCounting : FlowState → FlowState → Type 0
IsCounting st st' = IsSound st' × IsSame st st'

pub insert_nf_info-Keeps : (platform : Platform) (st : FlowState) → Keeps platform (IsCounting st)
insert_nf_info-Keeps platform st src dst bytes info st' fs fd (sound, same) =
    let run = insert_nf_info platform src dst bytes info st' in
    let kept = Ends-Whenever run IsSound (
      Returns-Ends run IsSound
        (insert_nf_info-IsSound platform src dst bytes info st' sound fs fd)) in
    Whenever-weaken run _ (IsCounting st)
      (Whenever-both run IsSound (IsSame st') kept
        (insert_nf_info-IsSame platform src dst bytes info st'))
      (λ end h. (h.0, (h.1.0 ∙ same.0, h.1.1 ∙ same.1, h.1.2 ∙ same.2)))
