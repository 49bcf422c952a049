-- ===== src/Daemon/Sound.antt =====
-- The loop of `main` over packets that are not of version 9.
use flowstatd.Base.{
  ℕ, suc, ◌+◌, ◌*◌, ◌≤◌, ◌≡◌, ◌≢◌, refl, ap, ◌∙◌, ==_iff, arith, ◌==◌, ◌&&◌, if◌then◌else◌, false,
  List, [], ◌∷◌, length, replicate, All, All-replicate, length-replicate, done, Returns,
  Returns-weaken, >>=-Returns, Bool-cases, inl, inr,
}
use flowstatd.Base.Words.{read_be16}
use flowstatd.Base.Reads.{IsBytes, read_be16_some}
use flowstatd.Clock.{Tm}
use flowstatd.Lookup.Index.{total}
use flowstatd.Flow.{zero_flow}
use flowstatd.Flow.Shape.{IsBalanced, IsValidTable, IsSound}
use flowstatd.V5.{add_flow_data_v5}
use flowstatd.V5.Records.{add_flow_data_v5-IsSound}
use flowstatd.V9.Packet.{V9State}
use flowstatd.Daemon.{Machine, Datagram, Daemon, add_flow_data, turn_hour, receive, receive_all}

-- A packet in the 8192-byte buffer that is not of version 9, of at most a header and 169 records.
pub record IsSmall (p : Datagram) : Type 0 where
  pub bytes : IsBytes p.buf
  pub size : length p.buf ≡ 8192
  pub short : p.n ≤ 24 + 48 * 169
  pub other : read_be16 p.buf 0 ≢ done 9

-- How often the hour goes from 23 to 0.
abbrev pub midnights : ℕ → List Datagram → ℕ
midnights hour [] = 0
midnights hour (p ∷ ps) =
    let rest = midnights p.now.tm_hour ps in
    if hour == 23 && p.now.tm_hour == 0 then suc rest else rest

pub cleared-IsValidTable : (n : ℕ) → IsValidTable n (replicate n zero_flow)
cleared-IsValidTable n = record {
  size = length-replicate n zero_flow;
  balanced =
      All-replicate IsBalanced n zero_flow
        (record { hours = refl; uploaded = refl; downloaded = refl; summed = refl });
}

-- The counters are sound, and so are the entries of the `n` tables that were written.
pub record IsDay (n : ℕ) (d : Daemon) : Type 0 where
  pub sound : IsSound d.state.flows
  pub balanced : All (λ table. All IsBalanced table) d.exported
  pub count : length d.exported ≡ n

pub turn_hour-IsDay :
    (now : Tm) (d : Daemon) (n : ℕ)
    → IsDay n d
    → IsDay (if d.pre_hour == 23 && now.tm_hour == 0 then suc n else n) (turn_hour now d)
unfolding turn_hour
turn_hour-IsDay now d n day = elim (Bool-cases (d.pre_hour == 23 && now.tm_hour == 0)) [
  | inr same ↦ rw same (record {
    sound = record {
      nets_valid = day.sound.nets_valid;
      small = day.sound.small;
      table = day.sound.table;
    };
    balanced = day.balanced;
    count = day.count;
  })
  | inl midnight ↦ rw midnight (record {
    sound = record {
      nets_valid = day.sound.nets_valid;
      small = day.sound.small;
      table = rw day.sound.table.size (cleared-IsValidTable (total d.state.flows.nets));
    };
    balanced = (day.sound.table.balanced, day.balanced);
    count = omega (arith, day.count);
  })
]

pub turn_hour-pre_hour : (now : Tm) (d : Daemon) → (turn_hour now d).pre_hour ≡ now.tm_hour
unfolding turn_hour
turn_hour-pre_hour now d = elim (Bool-cases (d.pre_hour == 23 && now.tm_hour == 0)) [
  | inr same ↦ rw same refl
  | inl midnight ↦ rw midnight refl
]

-- Sound counters, and the tables of templates as they were.
abbrev pub IsLeft : V9State → V9State → Type 0
IsLeft st st' = IsSound st'.flows × (st'.tables ≡ st.tables)

pub add_flow_data-IsLeft :
    (machine : Machine) (p : Datagram) (st : V9State)
    → IsSmall p
    → IsSound st.flows
    → Returns (add_flow_data machine p.buf p.n p.source_ip st) (IsLeft st)
unfolding add_flow_data
add_flow_data-IsLeft machine p st ok sound =
    let (version, e, _) = read_be16_some p.buf ok.bytes 0 (omega (arith, ok.size)) in
    let not_9 : (version == 9) ≡ false = elim (Bool-cases (version == 9)) [
      | inr other ↦ other
      | inl nine ↦ absurd (ok.other (e ∙ ap done ((==_iff version 9).0 nine)))
    ] in
    elim (Bool-cases (version == 5)) [
      | inr unknown ↦ rw (e, not_9, unknown) (sound, refl)
      | inl five ↦
          rw (e, not_9, five)
            (>>=-Returns (add_flow_data_v5 machine.platform p.buf p.n st.flows) _ IsSound
              (IsLeft st)
              (add_flow_data_v5-IsSound machine.platform p.buf p.n st.flows ok.bytes ok.size
                ok.short sound)
              (λ flows kept. (kept, refl)))
    ]

pub receive-IsDay :
    (machine : Machine) (p : Datagram) (d : Daemon) (n : ℕ)
    → IsSmall p
    → IsDay n d
    → Returns (receive machine p d) (λ d'.
      IsDay (if d.pre_hour == 23 && p.now.tm_hour == 0 then suc n else n) d'
      × (d'.pre_hour ≡ p.now.tm_hour))
unfolding receive
receive-IsDay machine p d n ok day =
    let turned = turn_hour-IsDay p.now d n day in
    >>=-Returns (add_flow_data machine p.buf p.n p.source_ip (turn_hour p.now d).state) _
      (IsLeft (turn_hour p.now d).state) _
      (add_flow_data-IsLeft machine p (turn_hour p.now d).state ok turned.sound)
      (λ st kept. (
        record { sound = kept.0; balanced = turned.balanced; count = turned.count },
        turn_hour-pre_hour p.now d,
      ))

pub recount : (m n : ℕ) (d : Daemon) → m ≡ n → IsDay m d → IsDay n d
recount m n d e day = record { sound = day.sound; balanced = day.balanced; count = day.count ∙ e }

-- The hour of a packet, and the packets behind it.
pub midnights-cons :
    (hour : ℕ) (p : Datagram) (ps : List Datagram) (d' : Daemon) (n : ℕ)
    → d'.pre_hour ≡ p.now.tm_hour
    → midnights d'.pre_hour ps + (if hour == 23 && p.now.tm_hour == 0 then suc n else n)
      ≡ midnights hour (p ∷ ps) + n
midnights-cons hour p ps d' n e = elim (Bool-cases (hour == 23 && p.now.tm_hour == 0)) [
  | inl turn ↦ rw (turn, e) (omega arith)
  | inr same ↦ rw (same, e) refl
]

-- From a sound state, over any sequence of packets of at most 169 records and not of version 9, the loop makes no access outside an array
-- and keeps the counters sound. It writes one table for each time that the hour goes from 23 to 0, and
-- every entry of a table given to `ExportRecord` has totals that are those of its hours.
pub receive_all-IsDay :
    (machine : Machine) (ps : List Datagram) (d : Daemon) (n : ℕ)
    → All IsSmall ps
    → IsDay n d
    → Returns (receive_all machine ps d) (IsDay (midnights d.pre_hour ps + n))
unfolding receive_all
receive_all-IsDay machine [] d n ok day = recount n (0 + n) d (omega arith) day
receive_all-IsDay machine (p ∷ ps) d n ok day =
    >>=-Returns (receive machine p d) (receive_all machine ps) _ _
      (receive-IsDay machine p d n ok.0 day)
      (λ d' k.
        Returns-weaken (receive_all machine ps d') _ _ (receive_all-IsDay machine ps d' _ ok.1 k.0)
          (λ end. recount _ _ end (midnights-cons d.pre_hour p ps d' n k.1)))
