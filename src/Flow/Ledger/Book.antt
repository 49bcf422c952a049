-- ===== src/Flow/Ledger/Book.antt =====
-- One call of `InsertNfInfoToIpTable`, in the ledger.
use flowstatd.Base.{
  zero, suc, ◌<◌, ◌≡◌, ◌≢◌, ◌⊎◌, refl, ◌==◌, Bool-cases, ==_iff, inl, inr, done, Returns,
  Returns-done, Returns-weaken, ℤ, pos, negsuc, All,
}
use flowstatd.Base.Words.{word32}
use flowstatd.Lookup.{get_ip_idx}
use flowstatd.Lookup.Laws.{get_ip_idx-Answers}
use flowstatd.Lookup.Slots.{IsAligned}
use flowstatd.Clock.{Platform, convert_nf_time}
use flowstatd.Flow.{up, down, FlowState, insert_nf_info}
use flowstatd.Flow.Shape.{IsSound}
use flowstatd.Flow.Effect.{
  IsInternal, HasNoEntry, insert_nf_info_outgoing, insert_nf_info_incoming,
  insert_nf_info_uncounted,
}
use flowstatd.Flow.Ledger.{Transfer, place_of, Ledger, book, post, ledger, place, Stands}
use flowstatd.Flow.Ledger.Charge.{==_false, charge-Stands}

module _ (st : FlowState) (sound : IsSound st) (aligned : All IsAligned st.nets) where
  module _ (platform : Platform) (t : Transfer) (fs : t.src < word32) (fd : t.dst < word32) where
    abbrev Posts : Ledger → Type 0
    Posts l = Returns (insert_nf_info platform t.src t.dst t.bytes t.info st) (Stands st l)

    -- A flow that is not counted.
    uncounted-Posts :
        (a b : ℤ)
        → get_ip_idx st.nets st.my_net t.src ≡ done a
        → get_ip_idx st.nets st.my_net t.dst ≡ done b
        → ((convert_nf_time platform t.info).tm_mday ≢ st.localtm.tm_mday)
          ⊎ (IsInternal a b ⊎ HasNoEntry a b)
        → Posts (ledger st)
    uncounted-Posts a b ea eb h =
        rw (insert_nf_info_uncounted platform t.src t.dst t.bytes t.info st a b ea eb h) (record {
          same_nets = refl;
          same_my_net = refl;
          same_localtm = refl;
          stands = λ c fc. refl;
        })

    book-Posts :
        (a b : ℤ)
        → get_ip_idx st.nets st.my_net t.src ≡ done a
        → get_ip_idx st.nets st.my_net t.dst ≡ done b
        → (convert_nf_time platform t.info).tm_mday ≡ st.localtm.tm_mday
        → Posts (book (place_of (done a)) (place_of (done b)) t (ledger st))
    book-Posts (pos i) (negsuc (suc zero)) ea eb today =
        Returns-weaken (insert_nf_info platform t.src t.dst t.bytes t.info st) _ _
          (insert_nf_info_outgoing platform t.src t.dst t.bytes t.info st sound fs fd i ea eb today)
          (λ st' c. charge-Stands st sound aligned up i t.src t.bytes _ st' c fs ea)
    book-Posts (negsuc (suc zero)) (pos j) ea eb today =
        Returns-weaken (insert_nf_info platform t.src t.dst t.bytes t.info st) _ _
          (insert_nf_info_incoming platform t.src t.dst t.bytes t.info st sound fs fd j ea eb today)
          (λ st' c. charge-Stands st sound aligned down j t.dst t.bytes _ st' c fd eb)
    book-Posts (pos i) (pos j) ea eb today =
        uncounted-Posts (pos i) (pos j) ea eb (inr (inl ((λ e. cc), (λ e. cc))))
    book-Posts (pos i) (negsuc zero) ea eb today =
        uncounted-Posts (pos i) (negsuc zero) ea eb (inr (inl ((λ e. cc), (λ e. cc))))
    book-Posts (pos i) (negsuc (suc (suc n))) ea eb today =
        uncounted-Posts (pos i) (negsuc (suc (suc n))) ea eb (inr (inl ((λ e. cc), (λ e. cc))))
    book-Posts (negsuc zero) (pos j) ea eb today =
        uncounted-Posts (negsuc zero) (pos j) ea eb (inr (inl ((λ e. cc), (λ e. cc))))
    book-Posts (negsuc (suc (suc m))) (pos j) ea eb today =
        uncounted-Posts (negsuc (suc (suc m))) (pos j) ea eb (inr (inl ((λ e. cc), (λ e. cc))))
    book-Posts (negsuc zero) (negsuc n) ea eb today =
        uncounted-Posts (negsuc zero) (negsuc n) ea eb (inr (inr tt))
    book-Posts (negsuc (suc zero)) (negsuc zero) ea eb today =
        uncounted-Posts (negsuc (suc zero)) (negsuc zero) ea eb (inr (inr tt))
    book-Posts (negsuc (suc zero)) (negsuc (suc zero)) ea eb today =
        uncounted-Posts (negsuc (suc zero)) (negsuc (suc zero)) ea eb (inr (inr tt))
    book-Posts (negsuc (suc zero)) (negsuc (suc (suc n))) ea eb today =
        uncounted-Posts (negsuc (suc zero)) (negsuc (suc (suc n))) ea eb (inr (inr tt))
    book-Posts (negsuc (suc (suc m))) (negsuc n) ea eb today =
        uncounted-Posts (negsuc (suc (suc m))) (negsuc n) ea eb (inr (inr tt))

    -- One call does the abstract step.
    pub post-Posts :
        Posts (post platform st.localtm.tm_mday (place st.nets st.my_net) t (ledger st))
    post-Posts =
        let (a, ea, _) =
          Returns-done (get_ip_idx st.nets st.my_net t.src) _
            (get_ip_idx-Answers st.nets st.my_net t.src sound.nets_valid sound.small fs) in
        let (b, eb, _) =
          Returns-done (get_ip_idx st.nets st.my_net t.dst) _
            (get_ip_idx-Answers st.nets st.my_net t.dst sound.nets_valid sound.small fd) in
        elim (Bool-cases ((convert_nf_time platform t.info).tm_mday == st.localtm.tm_mday)) [
          | inl e ↦
              let today =
                (==_iff (convert_nf_time platform t.info).tm_mday st.localtm.tm_mday).0 e in
              rw (e, ea, eb) (book-Posts a b ea eb today)
          | inr e ↦
              let other : (convert_nf_time platform t.info).tm_mday ≢ st.localtm.tm_mday =
                ==_false (convert_nf_time platform t.info).tm_mday st.localtm.tm_mday e in
              rw e (uncounted-Posts a b ea eb (inl other))
        ]
