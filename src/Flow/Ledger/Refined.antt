-- ===== src/Flow/Ledger/Refined.antt =====
-- Any number of calls of `InsertNfInfoToIpTable`, in the ledger.
use flowstatd.Base.{
  ℕ, ◌<◌, ◌≡◌, ◌⊎◌, refl, ap, ◌∙◌, ◌==◌, true, false, Bool-cases, inl, inr, List, [], ◌∷◌, Returns,
  Returns-done, Returns-weaken, All,
}
use flowstatd.Base.Words.{word32}
use flowstatd.Lookup.Slots.{IsAligned}
use flowstatd.Subnet.{Subnet}
use flowstatd.Clock.{Tm, Platform, convert_nf_time}
use flowstatd.Flow.{Direction, up, down, FlowState, insert_nf_info}
use flowstatd.Flow.Shape.{IsSound, insert_nf_info-IsSound}
use flowstatd.Flow.Ledger.{
  Transfer, Place, stated, internal, outside, Ledger, charge, book, post, post_all, ledger, place,
  insert_all, Stands,
}
use flowstatd.Flow.Ledger.Book.{post-Posts}

-- Two ledgers that agree on the addresses.
abbrev Agrees : Ledger → Ledger → Type 0
Agrees l l' = (a : ℕ) → a < word32 → l a ≡ l' a

charge-Agrees :
    (dir : Direction) (addr bytes : ℕ) (l l' : Ledger)
    → Agrees l l'
    → Agrees (charge dir addr bytes l) (charge dir addr bytes l')
charge-Agrees dir addr bytes l l' h a fa = rw (h a fa) refl

book-Agrees :
    (p q : Place) (t : Transfer) (l l' : Ledger)
    → Agrees l l'
    → Agrees (book p q t l) (book p q t l')
book-Agrees stated outside t l l' h = charge-Agrees up t.src t.bytes l l' h
book-Agrees outside stated t l l' h = charge-Agrees down t.dst t.bytes l l' h
book-Agrees stated stated t l l' h = h
book-Agrees stated internal t l l' h = h
book-Agrees outside outside t l l' h = h
book-Agrees outside internal t l l' h = h
book-Agrees internal q t l l' h = h

post_all-Agrees :
    (platform : Platform) (today : ℕ) (place : ℕ → Place) (ts : List Transfer) (l l' : Ledger)
    → Agrees l l'
    → Agrees (post_all platform today place ts l) (post_all platform today place ts l')
post_all-Agrees platform today place [] l l' h = h
post_all-Agrees platform today place (t ∷ ts) l l' h =
    post_all-Agrees platform today place ts (post platform today place t l)
      (post platform today place t l')
      (post-Agrees (Bool-cases ((convert_nf_time platform t.info).tm_mday == today)))
  where
    post-Agrees :
        (((convert_nf_time platform t.info).tm_mday == today) ≡ true)
          ⊎ (((convert_nf_time platform t.info).tm_mday == today) ≡ false)
        → Agrees (post platform today place t l) (post platform today place t l')
    post-Agrees (inl e) = rw e (book-Agrees (place t.src) (place t.dst) t l l' h)
    post-Agrees (inr e) = rw e h

-- The addresses of a flow are words of 32 bits.
abbrev pub IsTransfer : Transfer → Type 0
IsTransfer t = (t.src < word32) × (t.dst < word32)

-- The state is sound and stands for the ledger.
abbrev pub Refines : FlowState → Ledger → FlowState → Type 0
Refines st l st' = IsSound st' × Stands st l st'

Stands-trans :
    (platform : Platform) (ts : List Transfer) (st st' st'' : FlowState) (l : Ledger)
    → Stands st l st'
    → Stands st'
        (post_all platform st'.localtm.tm_mday (place st'.nets st'.my_net) ts (ledger st'))
        st''
    → Stands st (post_all platform st.localtm.tm_mday (place st.nets st.my_net) ts l) st''
Stands-trans platform ts st st' st'' l first rest = record {
  same_nets = rest.same_nets ∙ first.same_nets;
  same_my_net = rest.same_my_net ∙ first.same_my_net;
  same_localtm = rest.same_localtm ∙ first.same_localtm;
  stands = λ a fa.
      rest.stands a fa
      ∙ ap (λ (tm : Tm). post_all platform tm.tm_mday (place st'.nets st'.my_net) ts (ledger st') a)
          first.same_localtm
      ∙ ap
          (λ (nets : List Subnet).
            post_all platform st.localtm.tm_mday (place nets st'.my_net) ts (ledger st') a)
          first.same_nets
      ∙ ap
          (λ (net : Subnet).
            post_all platform st.localtm.tm_mday (place st.nets net) ts (ledger st') a)
          first.same_my_net
      ∙ post_all-Agrees platform st.localtm.tm_mday (place st.nets st.my_net) ts (ledger st') l
          first.stands a fa;
}

-- From a sound state whose prefixes end between bytes, any sequence of calls of
-- `InsertNfInfoToIpTable` with 32-bit addresses returns, leaves a sound state, and does what the
-- ledger says: the totals found for an address are those of the ledger after every flow of the day
-- has been booked, an upload for its source if it leaves the stated networks for the outside, a
-- download for its destination if it comes in, and nothing for any other flow or address.
pub insert_all-Refines :
    (platform : Platform) (ts : List Transfer) (st : FlowState)
    → IsSound st
    → All IsAligned st.nets
    → All IsTransfer ts
    → Returns
        (insert_all platform ts st)
        (Refines st (post_all platform st.localtm.tm_mday (place st.nets st.my_net) ts (ledger st)))
unfolding insert_all
insert_all-Refines platform [] st sound aligned fits = (
  sound,
  record { same_nets = refl; same_my_net = refl; same_localtm = refl; stands = λ a fa. refl },
)
insert_all-Refines platform (t ∷ ts) st sound aligned ((fs, fd), fits) =
    let l = post platform st.localtm.tm_mday (place st.nets st.my_net) t (ledger st) in
    let run = insert_nf_info platform t.src t.dst t.bytes t.info st in
    let kept = insert_nf_info-IsSound platform t.src t.dst t.bytes t.info st sound fs fd in
    let (st', e, first) =
      Returns-done run (Stands st l) (post-Posts st sound aligned platform t fs fd) in
    let sound' : IsSound st' = rw e at kept in
    let aligned' : All IsAligned st'.nets = rw first.same_nets aligned in
    rw e (
      Returns-weaken (insert_all platform ts st') _ _
        (insert_all-Refines platform ts st' sound' aligned' fits)
        (λ st'' rest. (rest.0, Stands-trans platform ts st st' st'' l first rest.1)))
