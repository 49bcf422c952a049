-- ===== src/Handlers/Direct.antt =====
-- Packets that are handled through the pointers.
use flowstatd.Base.{
  ℕ, zero, suc, ◌≡◌, refl, ◌==◌, true, Bool-cases, inl, inr, List, [], ◌∷◌, ◌++◌, length, get_elem?,
  Option, none, some, Run, done, undefined, out_of_fuel, ◌>>=◌, Returns, Returns-weaken, ◌∙◌,
}
use flowstatd.Base.Words.{read_be16}
use flowstatd.V9.Tables.{init_tables}
use flowstatd.V9.Packet.{V9State}
use flowstatd.Daemon.{Machine, Datagram, add_flow_data}
use flowstatd.Handlers.{
  v5, v9, Objects, funcs_of, new_handler, object_at, init_impl, call_init, netflow_handler_init,
  add_flow_data_impl, call_add_flow_data, dispatch, dispatch_all,
}

-- Each pointer is at a live object with the functions of its version.
pub record IsLinked (o : Objects) : Type 0 where
  pub at_v5 : object_at o.nf_handler_v5 o ≡ done (funcs_of v5)
  pub at_v9 : object_at o.nf_handler_v9 o ≡ done (funcs_of v9)

-- Through linked pointers, a packet is handled as by the functions themselves.
dispatch-add_flow_data :
    (machine : Machine) (buf : List ℕ) (packet_len source_ip : ℕ) (o : Objects)
    → IsLinked o
    → dispatch machine buf packet_len source_ip o ≡ (
        add_flow_data machine buf packet_len source_ip o.state >>= λ st.
        done (record o { state = st }))
unfolding dispatch add_flow_data call_add_flow_data add_flow_data_impl
dispatch-add_flow_data machine buf packet_len source_ip o linked = read (read_be16 buf 0) refl
  where
    read :
        (m : Run ℕ)
        → read_be16 buf 0 ≡ m
        → dispatch machine buf packet_len source_ip o ≡ (
            add_flow_data machine buf packet_len source_ip o.state >>= λ st.
            done (record o { state = st }))
    read undefined e = rw e refl
    read out_of_fuel e = rw e refl
    read (done version) e = elim (Bool-cases (version == 9)) [
      | inl nine ↦ rw (e, nine, linked.at_v9) refl
      | inr not_9 ↦ elim (Bool-cases (version == 5)) [
        | inl five ↦ rw (e, not_9, five, linked.at_v5) refl
        | inr unknown ↦ rw (e, not_9, unknown) refl
      ]
    ]

module _ {ℓ} {A : Type ℓ} where
  get_elem?-end : (xs : List A) (a : A) → get_elem? (xs ++ a ∷ []) (length xs) ≡ some a
  get_elem?-end [] a = refl
  get_elem?-end (x ∷ xs) a = get_elem?-end xs a

  get_elem?-before :
      (xs ys : List A) (i : ℕ) {a : A} → get_elem? xs i ≡ some a → get_elem? (xs ++ ys) i ≡ some a
  get_elem?-before [] ys i e = cc
  get_elem?-before (x ∷ xs) ys zero e = e
  get_elem?-before (x ∷ xs) ys (suc i) e = get_elem?-before xs ys i e

-- The two objects are the last ones that were allocated, and the tables are fresh.
pub netflow_handler_init-IsLinked :
    (o : Objects)
    → Returns
        (netflow_handler_init true o)
        (λ o'. IsLinked o' × (o'.state ≡ record o.state { tables = init_tables }))
unfolding netflow_handler_init new_handler call_init object_at init_impl
netflow_handler_init-IsLinked o =
    let first = get_elem?-end o.heap (some (funcs_of v5)) in
    let heap = o.heap ++ some (funcs_of v5) ∷ [] in
    let second = get_elem?-end heap (some (funcs_of v9)) in
    rw (first, second)
      (
        record {
          at_v5 = rw (get_elem?-before heap (some (funcs_of v9) ∷ []) (length o.heap) first) refl;
          at_v9 = rw second refl;
        },
        refl,
      )

object_at-state :
    (p : Option ℕ) (o : Objects) (st : V9State)
    → object_at p (record o { state = st }) ≡ object_at p o
unfolding object_at
object_at-state none o st = refl
object_at-state (some p) o st = refl

-- A packet moves no pointer and no object.
IsLinked-state : (o : Objects) (st : V9State) → IsLinked o → IsLinked (record o { state = st })
IsLinked-state o st linked = record {
  at_v5 = object_at-state o.nf_handler_v5 o st ∙ linked.at_v5;
  at_v9 = object_at-state o.nf_handler_v9 o st ∙ linked.at_v9;
}

-- The packets, by the functions themselves.
unfoldable pub handle_all : Machine → List Datagram → V9State → Run V9State
handle_all machine [] st = done st
handle_all machine (p ∷ ps) st =
    add_flow_data machine p.buf p.n p.source_ip st >>= handle_all machine ps

dispatch_all-handle_all :
    (machine : Machine) (ps : List Datagram) (o : Objects)
    → IsLinked o
    → dispatch_all machine ps o
      ≡ (handle_all machine ps o.state >>= λ st. done (record o { state = st }))
unfolding dispatch_all handle_all
dispatch_all-handle_all machine [] o linked = refl
dispatch_all-handle_all machine (p ∷ ps) o linked =
    rw (dispatch-add_flow_data machine p.buf p.n p.source_ip o linked) (
      after (add_flow_data machine p.buf p.n p.source_ip o.state) λ st.
        dispatch_all-handle_all machine ps (record o { state = st }) (IsLinked-state o st linked))
  where
    after :
        (m : Run V9State)
        → ((st : V9State)
            → dispatch_all machine ps (record o { state = st })
              ≡ (handle_all machine ps st >>= λ st'. done (record o { state = st' })))
        → (m >>= (λ st. done (record o { state = st })) >>= dispatch_all machine ps)
          ≡ (m >>= handle_all machine ps >>= λ st. done (record o { state = st }))
    after (done st) rest = rest st
    after undefined rest = refl
    after out_of_fuel rest = refl

-- `NetflowHandlerInit` with memory for its objects returns, and from then on any packets that
-- `AddFlowData` passes through the pointers end as those that are given to the two handlers' functions,
-- from empty tables of templates, the objects staying where they are.
pub dispatch_all-netflow_handler_init :
    (machine : Machine) (ps : List Datagram) (o : Objects)
    → Returns (netflow_handler_init true o) (λ o'. dispatch_all machine ps o' ≡ (
        handle_all machine ps (record o.state { tables = init_tables }) >>= λ st.
        done (record o' { state = st })))
dispatch_all-netflow_handler_init machine ps o =
    Returns-weaken (netflow_handler_init true o) _ _ (netflow_handler_init-IsLinked o)
      λ o' h. rw (dispatch_all-handle_all machine ps o' h.0, h.1) refl
