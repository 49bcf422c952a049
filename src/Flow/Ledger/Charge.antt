-- ===== src/Flow/Ledger/Charge.antt =====
-- An entry that `InsertNfInfoToIpTable` charges, in the ledger.
use flowstatd.Base.{
  ℕ, ◌<◌, ◌≡◌, ◌≢◌, refl, ap, sym, ◌∙◌, arith, ◌==◌, false, Bool-cases, ==_iff, inl, inr, done, Run,
  ℤ, pos, negsuc, All,
}
use flowstatd.Base.Words.{word32}
use flowstatd.Lookup.{get_ip_idx}
use flowstatd.Lookup.Slots.{IsAligned, get_ip_idx_injective}
use flowstatd.Flow.{Totals, add64, Direction, up, down, add_totals, FlowState}
use flowstatd.Flow.Shape.{IsSound}
use flowstatd.Flow.Effect.{Charged, total_of, opposite}
use flowstatd.Flow.Ledger.{charge, entry_totals, totals_at, ledger, Stands}

pub ==_false : (a b : ℕ) → (a == b) ≡ false → a ≢ b
==_false a b e same = ground (arith, e, same)

charged_totals :
    (dir : Direction) (bytes : ℕ) (t t' : Totals)
    → total_of dir t' ≡ add64 (total_of dir t) bytes
    → total_of (opposite dir) t' ≡ total_of (opposite dir) t
    → t'.sum ≡ add64 t.sum bytes
    → t' ≡ add_totals dir bytes t
unfolding add_totals
charged_totals up bytes t t' e f g = cc
charged_totals down bytes t t' e f g = cc

module _ (st : FlowState) (sound : IsSound st) (aligned : All IsAligned st.nets) where
  module _ (dir : Direction) (idx addr bytes hour : ℕ) (st' : FlowState)
      (c : Charged dir idx addr bytes hour st st') (fits : addr < word32)
      (here : get_ip_idx st.nets st.my_net addr ≡ done (pos idx)) where
    totals_at_other :
        (a : ℕ) (r : Run ℤ)
        → a < word32
        → a ≢ addr
        → get_ip_idx st.nets st.my_net a ≡ r
        → totals_at r st'.ip_table ≡ totals_at r st.ip_table
    totals_at_other a (done (pos j)) fa ne e =
        let apart : idx ≢ j = λ same. ne (
          get_ip_idx_injective st.nets st.my_net a addr idx sound.nets_valid aligned sound.small fa
            fits (rw same e) here) in
        ap entry_totals (c.others j apart)
    totals_at_other a (done (negsuc n)) fa ne e = refl
    totals_at_other a Run.undefined fa ne e = refl
    totals_at_other a Run.out_of_fuel fa ne e = refl

    totals_at_addr :
        totals_at (done (pos idx)) st'.ip_table
        ≡ add_totals dir bytes (totals_at (done (pos idx)) st.ip_table)
    totals_at_addr =
        ap entry_totals c.at_after
        ∙ charged_totals dir bytes c.before.nflow c.after.nflow c.total_grows c.total_opposite
            c.sum_grows
        ∙ ap (λ e. add_totals dir bytes (entry_totals e)) (sym c.at_before)

    charge-at :
        (a : ℕ)
        → a < word32
        → totals_at (get_ip_idx st.nets st.my_net a) st'.ip_table
          ≡ charge dir addr bytes (ledger st) a
    charge-at a fa = elim (Bool-cases (a == addr)) [
      | inl e ↦
          let same : a ≡ addr = (==_iff a addr).0 e in
          let there : get_ip_idx st.nets st.my_net a ≡ done (pos idx) = rw same here in
          rw (e, there) totals_at_addr
      | inr e ↦
          let other = ==_false a addr e in
          rw e (totals_at_other a (get_ip_idx st.nets st.my_net a) fa other refl)
    ]

    pub charge-Stands : Stands st (charge dir addr bytes (ledger st)) st'
    charge-Stands = record {
      same_nets = c.same_nets;
      same_my_net = c.same_my_net;
      same_localtm = c.same_localtm;
      stands = λ a fa.
          let same : get_ip_idx st'.nets st'.my_net a ≡ get_ip_idx st.nets st.my_net a =
            ap (λ nets. get_ip_idx nets st'.my_net a) c.same_nets
            ∙ ap (λ net. get_ip_idx st.nets net a) c.same_my_net in
          ap (λ r. totals_at r st'.ip_table) same ∙ charge-at a fa;
    }
