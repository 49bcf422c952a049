-- ===== src/Command/Secret.antt =====
-- What a client without the text that opens the whitelist cannot see.
use flowstatd.Base.{
  ℕ, zero, suc, ◌%◌, ◌≡◌, ◌≢◌, refl, ap, sym, arith, ◌==◌, true, false, Bool-cases, inl, inr, List,
  [], ◌∷◌, Option, some, none, load, done, ◌>>=◌, Whenever, >>=-Whenever,
}
use flowstatd.Base.Words.{word32}
use flowstatd.Flow.{FlowState}
use flowstatd.Report.{get_by_flow, get_by_top_n, get_by_ip}
use flowstatd.Report.Whitelist.{HasEnd}
use flowstatd.Records.{File, Imported, import_record}
use flowstatd.Config.Strings.{Text}
use flowstatd.Config.{Json}
use flowstatd.Command.{
  Field, Request, Server, Answer, Replied, strcasecmp, strcmp, text_today, text_get_flow,
  text_show_over_list, text_show_top_list, secret_pointer, is_show_all, get_flow, show_over_list,
  show_top_list, run_command, run_imported, run_day, run_dated, run_object, parse_cmd,
}
use flowstatd.Report.Hidden.{
  IsOpenListing, IsClosed, get_by_flow-IsOpenListing, get_by_top_n-IsOpenListing,
  get_by_ip-IsClosed,
}

-- What is said of an answer to such a client.
abbrev pub IsDiscreet : List ℕ → Replied → Type 0
IsDiscreet ws Replied.dies = Unit
IsDiscreet ws (Replied.replies b Answer.invalid_command) = Unit
IsDiscreet ws (Replied.replies b Answer.no_record) = Unit
IsDiscreet ws (Replied.replies b (Answer.flow_of addr r)) = IsClosed ws addr r
IsDiscreet ws (Replied.replies b (Answer.over_list l)) = IsOpenListing ws l
IsDiscreet ws (Replied.replies b (Answer.top_list l)) = IsOpenListing ws l

module _ (server : Server) (ended : HasEnd server.whitelist) where
  get_flow-IsDiscreet :
      (v : Option Json) (st : FlowState)
      → Whenever (get_flow server false v st) (IsDiscreet server.whitelist)
  unfolding get_flow
  get_flow-IsDiscreet (some (Json.string ip)) st =
      >>=-Whenever (get_by_ip false server.whitelist (server.inet_addr ip) st) _
        (IsClosed server.whitelist (server.inet_addr ip)) (IsDiscreet server.whitelist)
        (get_by_ip-IsClosed server.whitelist ended (server.inet_addr ip) st) (λ r closed. closed)
  get_flow-IsDiscreet _ st = tt

  show_over_list-IsDiscreet :
      (v : Option Json) (st : FlowState)
      → Whenever (show_over_list server false v st) (IsDiscreet server.whitelist)
  unfolding show_over_list
  show_over_list-IsDiscreet (some (Json.integer n)) st =
      >>=-Whenever (get_by_flow server.sort false server.whitelist (n % word32) st.ip_table) _
        (IsOpenListing server.whitelist) (IsDiscreet server.whitelist)
        (get_by_flow-IsOpenListing server.whitelist ended server.sort (n % word32) st.ip_table)
        (λ r all. all)
  show_over_list-IsDiscreet _ st = tt

  show_top_list-IsDiscreet :
      (v : Option Json) (st : FlowState)
      → Whenever (show_top_list server false v st) (IsDiscreet server.whitelist)
  unfolding show_top_list
  show_top_list-IsDiscreet (some (Json.integer n)) st =
      >>=-Whenever (get_by_top_n server.sort false server.whitelist (n % word32) st.ip_table) _
        (IsOpenListing server.whitelist) (IsDiscreet server.whitelist)
        (get_by_top_n-IsOpenListing server.whitelist ended server.sort (n % word32) st.ip_table)
        (λ r all. all)
  show_top_list-IsDiscreet _ st = tt

strcmp→eq : (s t : Text) → strcmp s t ≡ true → s ≡ t
unfolding strcmp
strcmp→eq [] [] e = refl
strcmp→eq [] (d ∷ t) e = cc
strcmp→eq (c ∷ s) [] e = cc
strcmp→eq (c ∷ s) (d ∷ t) e =
    let same : (c == d ≡ true) × (strcmp s t ≡ true) = (ground (arith, e)) in
    let first : c ≡ d = (ground (arith, same.0)) in rw (first, strcmp→eq s t same.1) refl

-- Only the text that the pointer leads to shows all.
abbrev pub IsNoKey : Server → Option Json → Type 0
IsNoKey server (some (Json.string key)) =
    server.string_at (secret_pointer server.secret_key) ≢ some key
IsNoKey server v = Unit

is_show_all-false :
    (server : Server) (v : Option Json)
    → IsNoKey server v
    → Whenever (is_show_all server v) (λ b. b ≡ false)
unfolding is_show_all
is_show_all-false server none other = refl
is_show_all-false server (some Json.true_value) other = refl
is_show_all-false server (some Json.other) other = refl
is_show_all-false server (some (Json.integer n)) other = refl
is_show_all-false server (some (Json.array es)) other = refl
is_show_all-false server (some (Json.string key)) other =
    compared (server.string_at (secret_pointer server.secret_key)) other
  where
    compared :
        (t : Option Text)
        → t ≢ some key
        → Whenever (load t >>= λ text. done (strcmp key text)) (λ b. b ≡ false)
    compared none differs = tt
    compared (some text) differs = elim (Bool-cases (strcmp key text)) [
      | inl e ↦ absurd (differs (ap some (sym (strcmp→eq key text e))))
      | inr e ↦ e
    ]

module _ (server : Server) (ended : HasEnd server.whitelist) (get : Field → Option Json)
    (no_key : IsNoKey server (get Field.field_show_all)) where
  run_command-IsDiscreet :
      (cmd : Text) (st : FlowState)
      → Whenever (run_command server get cmd st) (IsDiscreet server.whitelist)
  unfolding run_command
  run_command-IsDiscreet cmd st =
      >>=-Whenever (is_show_all server (get Field.field_show_all)) _ (λ b. b ≡ false)
        (IsDiscreet server.whitelist) (is_show_all-false server (get Field.field_show_all) no_key)
        λ show_all hidden. elim (Bool-cases (strcasecmp cmd text_get_flow)) [
          | inl e ↦ rw (e, hidden) (get_flow-IsDiscreet server ended (get Field.field_ip) st)
          | inr e ↦ elim (Bool-cases (strcasecmp cmd text_show_over_list)) [
            | inl f ↦
                rw (e, f, hidden)
                  (show_over_list-IsDiscreet server ended (get Field.field_over_value) st)
            | inr f ↦ elim (Bool-cases (strcasecmp cmd text_show_top_list)) [
              | inl g ↦
                  rw (e, f, g, hidden)
                    (show_top_list-IsDiscreet server ended (get Field.field_limit) st)
              | inr g ↦ rw (e, f, g) tt
            ]
          ]
        ]

  run_day-IsDiscreet :
      (cmd : Text) (file : Option File) (st : FlowState)
      → Whenever (run_day server get cmd file st) (IsDiscreet server.whitelist)
  unfolding run_day run_imported
  run_day-IsDiscreet cmd none st = tt
  run_day-IsDiscreet cmd (some file) st = imported (import_record server.memory file st)
    where
      imported :
          (r : Imported) → Whenever (run_imported server get cmd r) (IsDiscreet server.whitelist)
      imported Imported.exits = tt
      imported (Imported.returns zero st') = tt
      imported (Imported.returns (suc n) st') = run_command-IsDiscreet cmd st'

  run_dated-IsDiscreet :
      (cmd : Text) (v : Option Json) (st : FlowState)
      → Whenever (run_dated server get cmd v st) (IsDiscreet server.whitelist)
  unfolding run_dated
  run_dated-IsDiscreet cmd (some (Json.string date)) st =
      elim (Bool-cases (strcasecmp date text_today)) [
        | inl e ↦ rw e (run_command-IsDiscreet cmd st)
        | inr e ↦ rw e (run_day-IsDiscreet cmd (server.day_file date) st)
      ]
  run_dated-IsDiscreet cmd _ st = tt

  run_object-IsDiscreet :
      (v : Option Json) (st : FlowState)
      → Whenever (run_object server get v st) (IsDiscreet server.whitelist)
  unfolding run_object
  run_object-IsDiscreet (some (Json.string cmd)) st =
      run_dated-IsDiscreet cmd (get Field.field_date) st
  run_object-IsDiscreet _ st = tt

  -- With a whitelist that has a free cell, whatever a client asks whose `showAll` is no text, or
  -- not the text at the address that the first eight bytes of the configured key form, and about whatever
  -- day: if an answer is sent, that is if there is no reading outside the table or where no text stands,
  -- then no list in it names an address of the whitelist's entries before the first free cell, and about
  -- such an address it holds zeros only.
  pub parse_cmd-IsDiscreet :
      (st : FlowState)
      → Whenever (parse_cmd server (Request.object get) st) (IsDiscreet server.whitelist)
  unfolding parse_cmd
  parse_cmd-IsDiscreet st = run_object-IsDiscreet (get Field.field_command) st
