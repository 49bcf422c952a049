-- ===== src/Handlers/Lifecycle.antt =====
-- The objects behind `NetflowHandlerUnInit`.
use flowstatd.Base.{
  ℕ, ◌≡◌, ◌≢◌, refl, inl, inr, List, get_elem?, set, get_elem?-lt, get_elem?-set_self,
  get_elem?-set_ne, length-set, ◌⊎◌, Option, none, some, done, undefined, ◌>>=◌, load, Returns,
  Returns-weaken, ◌∙◌, ap, sym,
}
use flowstatd.Base.Words.{read_be16}
use flowstatd.V9.Packet.{V9State}
use flowstatd.Daemon.{Machine}
use flowstatd.Handlers.{
  v5, v9, Funcs, Objects, no_tables, funcs_of, live, object_at, un_init_impl, free_handler,
  netflow_handler_un_init, call_add_flow_data, dispatch,
}
use flowstatd.Handlers.Direct.{IsLinked}

cell_of : (c : Option (Option Funcs)) (f : Funcs) → (load c >>= live) ≡ done f → c ≡ some (some f)
cell_of none f e = cc
cell_of (some none) f e = cc
cell_of (some (some g)) f e = cc

-- A packet that goes through a dangling pointer.
call_add_flow_data-freed :
    (machine : Machine) (p : Option ℕ) (i : ℕ) (buf : List ℕ) (packet_len source_ip : ℕ)
    (o : Objects)
    → p ≡ some i
    → get_elem? o.heap i ≡ some none
    → call_add_flow_data p machine buf packet_len source_ip o ≡ undefined
unfolding call_add_flow_data object_at
call_add_flow_data-freed machine p i buf packet_len source_ip o at e = rw (at, e) refl

-- Both pointers keep their values, and both objects are freed.
pub record IsFreed (o o' : Objects) : Type 0 where
  pub p : ℕ
  pub q : ℕ
  pub kept_v5 : o'.nf_handler_v5 ≡ some p
  pub kept_v9 : o'.nf_handler_v9 ≡ some q
  pub freed_v5 : get_elem? o'.heap p ≡ some none
  pub freed_v9 : get_elem? o'.heap q ≡ some none
  pub no_table : o'.state ≡ record o.state { tables = no_tables }

un_init_at :
    (heap : List (Option Funcs)) (a b : Option ℕ) (st : V9State)
    → (let o : Objects = record { heap = heap; nf_handler_v5 = a; nf_handler_v9 = b; state = st } in
        object_at a o ≡ done (funcs_of v5)
        → object_at b o ≡ done (funcs_of v9)
        → Returns (netflow_handler_un_init o) (IsFreed o))
unfolding netflow_handler_un_init free_handler un_init_impl object_at
un_init_at heap none b st e5 e9 = cc
un_init_at heap (some p) none st e5 e9 = cc
un_init_at heap (some p) (some q) st e5 e9 =
    let at_p = cell_of (get_elem? heap p) (funcs_of v5) e5 in
    let at_q = cell_of (get_elem? heap q) (funcs_of v9) e9 in
    let apart : p ≢ q = λ same. other (ap (λ (i : ℕ). get_elem? heap i) same) at_p at_q in
    let small = get_elem?-lt heap p at_p in
    let large = get_elem?-lt heap q at_q in
    rw (at_p, get_elem?-set_ne heap p q none apart, at_q)
      (record {
        p = p;
        q = q;
        kept_v5 = refl;
        kept_v9 = refl;
        freed_v5 =
            get_elem?-set_ne (set heap p none) q p none (λ e. apart (sym e))
            ∙ get_elem?-set_self heap p none small;
        freed_v9 = get_elem?-set_self (set heap p none) q none (rw (length-set heap p none) large);
        no_table = refl;
      })
  where
    other :
        get_elem? heap p ≡ get_elem? heap q
        → get_elem? heap p ≡ some (some (funcs_of v5))
        → get_elem? heap q ≡ some (some (funcs_of v9))
        → ⊥
    other e at_p at_q = cc

netflow_handler_un_init-IsFreed :
    (o : Objects) → IsLinked o → Returns (netflow_handler_un_init o) (IsFreed o)
netflow_handler_un_init-IsFreed o linked =
    un_init_at o.heap o.nf_handler_v5 o.nf_handler_v9 o.state linked.at_v5 linked.at_v9

-- The version of a packet that has a handler.
abbrev pub IsHandled : List ℕ → Type 0
IsHandled buf = (read_be16 buf 0 ≡ done 9) ⊎ (read_be16 buf 0 ≡ done 5)

-- `NetflowHandlerUnInit` on objects that `NetflowHandlerInit` made returns with both objects freed, the
-- tables gone and the two pointers as they were. After it, `AddFlowData` with a packet of version 5 or 9, and
-- a second `NetflowHandlerUnInit`, follow a pointer at a freed object.
pub netflow_handler_un_init_leaves :
    (machine : Machine) (o : Objects)
    → IsLinked o
    → Returns (netflow_handler_un_init o) (λ o'.
      IsFreed o o'
      × (netflow_handler_un_init o' ≡ undefined)
      × ((buf : List ℕ) (packet_len source_ip : ℕ)
          → IsHandled buf
          → dispatch machine buf packet_len source_ip o' ≡ undefined))
unfolding netflow_handler_un_init free_handler object_at dispatch
netflow_handler_un_init_leaves machine o linked =
    Returns-weaken (netflow_handler_un_init o) _ _ (netflow_handler_un_init-IsFreed o linked)
      λ o' freed. (
        freed,
        again o' freed,
        λ buf packet_len source_ip handled. packet o' freed buf packet_len source_ip handled,
      )
  where
    again : (o' : Objects) → IsFreed o o' → netflow_handler_un_init o' ≡ undefined
    again o' freed = rw (freed.kept_v5, freed.freed_v5) refl

    packet :
        (o' : Objects)
        → IsFreed o o'
        → (buf : List ℕ) (packet_len source_ip : ℕ) → IsHandled buf
        → dispatch machine buf packet_len source_ip o' ≡ undefined
    packet o' freed buf packet_len source_ip (inl e) = rw e (
        call_add_flow_data-freed machine o'.nf_handler_v9 freed.q buf packet_len source_ip o'
          freed.kept_v9 freed.freed_v9)
    packet o' freed buf packet_len source_ip (inr e) = rw e (
        call_add_flow_data-freed machine o'.nf_handler_v5 freed.p buf packet_len source_ip o'
          freed.kept_v5 freed.freed_v5)
