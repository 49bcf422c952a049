-- ===== src/Daemon/Kept.antt =====
-- Any packet, of whatever version and content.
use flowstatd.Base.{
  ℕ, ◌≡◌, refl, ◌∙◌, ◌==◌, ◌&&◌, Bool-cases, inl, inr, List, Whenever, Whenever-Unit, >>=-Whenever,
}
use flowstatd.Base.Words.{read_be16}
use flowstatd.Base.Reads.{IsBytes}
use flowstatd.Subnet.{Subnet}
use flowstatd.Clock.{Tm}
use flowstatd.Flow.{FlowState}
use flowstatd.Flow.Kept.{Keeps, insert_nf_info-Keeps}
use flowstatd.V5.{add_flow_data_v5}
use flowstatd.V5.Kept.{add_flow_data_v5-Keeps}
use flowstatd.V9.Packet.{V9State}
use flowstatd.V9.Packet.Kept.{add_flow_data_v9-Keeps}
use flowstatd.Daemon.{Machine, Datagram, Daemon, add_flow_data, turn_hour, receive}
use flowstatd.Daemon.Sound.{IsDay, turn_hour-IsDay}

-- The handlers change the counters by `InsertNfInfoToIpTable` only, with addresses of 32 bits: what every
-- call of it keeps, every packet keeps, if the handler comes back from it.
pub add_flow_data-Keeps :
    (machine : Machine) (P : FlowState → Type 0) (buf : List ℕ) (packet_len source_ip : ℕ)
    (st : V9State)
    → Keeps machine.platform P
    → IsBytes buf
    → P st.flows
    → Whenever (add_flow_data machine buf packet_len source_ip st) (λ st'. P st'.flows)
unfolding add_flow_data
add_flow_data-Keeps machine P buf packet_len source_ip st keeps bytes holds =
    >>=-Whenever (read_be16 buf 0) _ (λ v. Unit {0}) _ (Whenever-Unit (read_be16 buf 0))
      λ version u. elim (Bool-cases (version == 9)) [
        | inl nine ↦ rw nine (
            add_flow_data_v9-Keeps machine.platform P keeps machine.stale buf bytes machine.fuel
              machine.inner packet_len source_ip st holds)
        | inr e ↦ elim (Bool-cases (version == 5)) [
          | inl five ↦
              rw (e, five)
                (>>=-Whenever (add_flow_data_v5 machine.platform buf packet_len st.flows) _ P
                  (λ st'. P st'.flows)
                  (add_flow_data_v5-Keeps machine.platform P keeps buf bytes packet_len st.flows
                    holds)
                  λ flows kept. kept)
          | inr unknown ↦ rw (e, unknown) holds
        ]
      ]

-- Sound counters of these subnets, and tables given to `ExportRecord` whose totals are those of their hours.
pub record IsServing (nets : List Subnet) (d : Daemon) : Type 0 where
  pub written : ℕ
  pub day : IsDay written d
  pub same_nets : d.state.flows.nets ≡ nets

turn_hour-nets : (now : Tm) (d : Daemon) → (turn_hour now d).state.flows.nets ≡ d.state.flows.nets
unfolding turn_hour
turn_hour-nets now d = elim (Bool-cases (d.pre_hour == 23 && now.tm_hour == 0)) [
  | inr same ↦ rw same refl
  | inl midnight ↦ rw midnight refl
]

pub receive-IsServing :
    (machine : Machine) (p : Datagram) (d : Daemon) (nets : List Subnet)
    → IsBytes p.buf
    → IsServing nets d
    → Whenever (receive machine p d) (IsServing nets)
unfolding receive
receive-IsServing machine p d nets bytes serving =
    let turned = turn_hour p.now d in
    let day = turn_hour-IsDay p.now d serving.written serving.day in
    >>=-Whenever (add_flow_data machine p.buf p.n p.source_ip turned.state) _ _ (IsServing nets)
      (add_flow_data-Keeps machine _ p.buf p.n p.source_ip turned.state
        (insert_nf_info-Keeps machine.platform turned.state.flows) bytes
        (day.sound, (refl, refl, refl)))
      λ st kept. record {
        written = _;
        day = record { sound = kept.0; balanced = day.balanced; count = day.count };
        same_nets = kept.1.0 ∙ turn_hour-nets p.now d ∙ serving.same_nets;
      }
