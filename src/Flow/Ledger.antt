-- ===== src/Flow/Ledger.antt =====
-- The table of `InsertNfInfoToIpTable` seen from outside: a ledger with the day's bytes of each address,
-- and nothing about indices, blocks of subnets or their order.
pub mod Charge
pub mod Book
pub mod Refined
use flowstatd.Base.{
  ℕ, zero, suc, ◌<◌, ◌≡◌, ◌≢◌, ◌⊎◌, refl, ap, sym, ◌∙◌, arith, ◌==◌, if◌then◌else◌, true, false,
  Bool-cases, ==_iff, inl, inr, List, [], ◌∷◌, length, get_elem?, Option, done, Run, Returns,
  Returns-done, Returns-weaken, >>=-Returns, ◌>>=◌, some, none, ℤ, pos, negsuc, All,
}
use flowstatd.Base.Words.{word32}
use flowstatd.Lookup.{get_ip_idx, ret_not_in_mynet}
use flowstatd.Lookup.Laws.{Answers, get_ip_idx-Answers}
use flowstatd.Lookup.Slots.{IsAligned, get_ip_idx_injective}
use flowstatd.Subnet.{Subnet}
use flowstatd.Clock.{Tm, Platform, NfTimeInfo, convert_nf_time}
use flowstatd.Flow.{
  Totals, HostFlow, add64, Direction, up, down, add_totals, FlowState, insert_nf_info,
}
use flowstatd.Flow.Shape.{IsSound, insert_nf_info-IsSound}
use flowstatd.Flow.Effect.{
  Charged, IsInternal, HasNoEntry, total_of, opposite, insert_nf_info_outgoing,
  insert_nf_info_incoming, insert_nf_info_uncounted,
}

-- One call of `InsertNfInfoToIpTable`.
pub record Transfer : Type 0 where
  pub src : ℕ
  pub dst : ℕ
  pub bytes : ℕ
  pub info : NfTimeInfo

-- Where an address lies: in a stated network, else in `myNetwork`, else outside.
pub data Place : Type 0 where
  stated : Place
  internal : Place
  outside : Place

abbrev pub place_of : Run ℤ → Place
place_of (done (pos i)) = stated
place_of (done (negsuc (suc zero))) = outside
place_of r = internal

abbrev pub Ledger : Type 0
Ledger = ℕ → Totals

abbrev pub no_totals : Totals
no_totals = record { upload = 0; download = 0; sum = 0 }

-- The bytes are added to one address.
abbrev pub charge : Direction → ℕ → ℕ → Ledger → Ledger
charge dir addr bytes l a = if a == addr then add_totals dir bytes (l a) else l a

-- What leaves the stated networks is an upload of its source, what comes in a download of its
-- destination; all else is not counted.
abbrev pub book : Place → Place → Transfer → Ledger → Ledger
book stated outside t l = charge up t.src t.bytes l
book outside stated t l = charge down t.dst t.bytes l
book p q t l = l

-- The abstract step, on the day `today` of the month.
abbrev pub post : Platform → ℕ → (ℕ → Place) → Transfer → Ledger → Ledger
post platform today place t l =
    if (convert_nf_time platform t.info).tm_mday == today
    then book (place t.src) (place t.dst) t l
    else l

abbrev pub post_all : Platform → ℕ → (ℕ → Place) → List Transfer → Ledger → Ledger
post_all platform today place [] l = l
post_all platform today place (t ∷ ts) l =
    post_all platform today place ts (post platform today place t l)

-- The ledger and the places that a state stands for.
abbrev pub entry_totals : Option HostFlow → Totals
entry_totals (some host) = host.nflow
entry_totals none = no_totals

abbrev pub totals_at : Run ℤ → List HostFlow → Totals
totals_at (done (pos i)) table = entry_totals (get_elem? table i)
totals_at r table = no_totals

abbrev pub ledger : FlowState → Ledger
ledger st a = totals_at (get_ip_idx st.nets st.my_net a) st.ip_table

abbrev pub place : List Subnet → Subnet → ℕ → Place
place nets my_net a = place_of (get_ip_idx nets my_net a)

-- One call after the other.
unfoldable pub insert_all : Platform → List Transfer → FlowState → Run FlowState
insert_all platform [] st = done st
insert_all platform (t ∷ ts) st =
    insert_nf_info platform t.src t.dst t.bytes t.info st >>= insert_all platform ts

-- The same networks and day, and the ledger of the addresses.
pub record Stands (st : FlowState) (l : Ledger) (st' : FlowState) : Type 0 where
  pub same_nets : st'.nets ≡ st.nets
  pub same_my_net : st'.my_net ≡ st.my_net
  pub same_localtm : st'.localtm ≡ st.localtm
  pub stands : (a : ℕ) → a < word32 → ledger st' a ≡ l a
