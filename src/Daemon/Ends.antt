-- ===== src/Daemon/Ends.antt =====
-- The loop of `main` over packets of every version.
use flowstatd.Base.{
  ℕ, suc, ◌+◌, ◌<◌, ◌≡◌, ◌⊎◌, refl, arith, ◌==◌, ◌&&◌, if◌then◌else◌, List, [], ◌∷◌, All, done,
  Ends, Ends-weaken, >>=-Ends, Returns-Ends, Bool-cases, inl, inr,
}
use flowstatd.Base.Words.{read_be16}
use flowstatd.Base.Reads.{IsBytes}
use flowstatd.Clock.{Tm}
use flowstatd.Flow.Shape.{IsSound}
use flowstatd.V9.Handle.Loop.{IsWide}
use flowstatd.V9.Packet.{V9State}
use flowstatd.V9.Packet.Ends.{Walk, Ends-known, add_flow_data_v9-Ends}
use flowstatd.Daemon.{Machine, Datagram, Daemon, add_flow_data, turn_hour, receive, receive_all}
use flowstatd.Daemon.Sound.{
  IsSmall, IsDay, midnights, turn_hour-IsDay, turn_hour-pre_hour, IsLeft, add_flow_data-IsLeft,
  recount, midnights-cons,
}

-- A packet of version 9 whose flowsets have lengths, and whose templates have fields, as the walk meets them.
pub record IsWalked (machine : Machine) (p : Datagram) (st : V9State) : Type 0 where
  pub bytes : IsBytes p.buf
  pub nine : read_be16 p.buf 0 ≡ done 9
  pub walk : Walk p.buf p.n p.source_ip 20 st.tables
  pub enough : p.n < machine.fuel

-- Each packet is of at most 169 records and not of version 9, or is walked with the tables that the packets
-- before it have left.
abbrev pub AreWalked : Machine → List Datagram → Daemon → Type 0
AreWalked machine [] d = Unit
AreWalked machine (p ∷ ps) d =
    (IsSmall p ⊎ IsWalked machine p (turn_hour p.now d).state)
    × ((d' : Daemon) → receive machine p d ≡ done d' → AreWalked machine ps d')

-- Sound counters, and no template whose fields have no width in all.
abbrev pub IsWideDay : ℕ → Daemon → Type 0
IsWideDay n d = IsDay n d × All IsWide d.state.tables.template_table

turn_hour-tables : (now : Tm) (d : Daemon) → (turn_hour now d).state.tables ≡ d.state.tables
unfolding turn_hour
turn_hour-tables now d = elim (Bool-cases (d.pre_hour == 23 && now.tm_hour == 0)) [
  | inr same ↦ rw same refl
  | inl midnight ↦ rw midnight refl
]

add_flow_data-Ends :
    (machine : Machine) (p : Datagram) (st : V9State)
    → machine.inner ≡ 65536
    → IsSmall p ⊎ IsWalked machine p st
    → IsSound st.flows
    → All IsWide st.tables.template_table
    → Ends
        (add_flow_data machine p.buf p.n p.source_ip st)
        (λ st'. IsSound st'.flows × All IsWide st'.tables.template_table)
unfolding add_flow_data
add_flow_data-Ends machine p st inner (inl small) sound wide =
    Ends-weaken (add_flow_data machine p.buf p.n p.source_ip st) (IsLeft st) _
      (Returns-Ends (add_flow_data machine p.buf p.n p.source_ip st) (IsLeft st)
        (add_flow_data-IsLeft machine p st small sound))
      λ st' left. (left.0, rw left.1 wide)
add_flow_data-Ends machine p st inner (inr walked) sound wide =
    rw (walked.nine, inner)
      (add_flow_data_v9-Ends machine.platform machine.stale p.buf walked.bytes p.n p.source_ip
        machine.fuel st walked.walk wide sound walked.enough)

receive-IsWideDay :
    (machine : Machine) (p : Datagram) (d : Daemon) (n : ℕ)
    → machine.inner ≡ 65536
    → IsSmall p ⊎ IsWalked machine p (turn_hour p.now d).state
    → IsWideDay n d
    → Ends (receive machine p d) (λ d'.
      IsWideDay (if d.pre_hour == 23 && p.now.tm_hour == 0 then suc n else n) d'
      × (d'.pre_hour ≡ p.now.tm_hour))
unfolding receive
receive-IsWideDay machine p d n inner ok (day, wide) =
    let turned = turn_hour-IsDay p.now d n day in
    >>=-Ends (add_flow_data machine p.buf p.n p.source_ip (turn_hour p.now d).state) _ _ _
      (add_flow_data-Ends machine p (turn_hour p.now d).state inner ok turned.sound
        (rw (turn_hour-tables p.now d) wide))
      λ st kept. (
        (record { sound = kept.0; balanced = turned.balanced; count = turned.count }, kept.1),
        turn_hour-pre_hour p.now d,
      )

-- From sound counters and templates with widths, with enough fuel for the v9 handler: over packets of any version, those of
-- version 9 having flowsets with lengths and templates with fields as they are walked, and the others at most 169
-- records, no packet keeps the loop for ever. If it stays inside the arrays, the loop leaves sound counters, templates with
-- widths, and one table given to `ExportRecord` for each time that the hour goes from 23 to 0.
pub receive_all-Ends :
    (machine : Machine) (ps : List Datagram) (d : Daemon) (n : ℕ)
    → machine.inner ≡ 65536
    → AreWalked machine ps d
    → IsWideDay n d
    → Ends (receive_all machine ps d) (IsWideDay (midnights d.pre_hour ps + n))
unfolding receive_all
receive_all-Ends machine [] d n inner ok (day, wide) = (recount n (0 + n) d (omega arith) day, wide)
receive_all-Ends machine (p ∷ ps) d n inner (ok, rest) wide_day =
    >>=-Ends (receive machine p d) (receive_all machine ps) _ _
      (Ends-known (receive machine p d) _ (receive-IsWideDay machine p d n inner ok wide_day))
      λ d' k.
        Ends-weaken (receive_all machine ps d') _ _
          (receive_all-Ends machine ps d' _ inner (rest d' k.1) k.0.0)
          λ end h. (recount _ _ end (midnights-cons d.pre_hour p ps d' n k.0.1) h.0, h.1)
