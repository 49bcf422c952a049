-- ===== src/Handlers.antt =====
-- The handler objects of src/netflow_handler_v5.c and src/netflow_handler_v9.c, and src/netflow.c
-- (NetflowHandlerInit, NetflowHandlerUnInit, AddFlowData), which calls them through their pointers.
pub mod Direct
pub mod Lifecycle
use flowstatd.Base.{
  ℕ, ◌==◌, if◌then◌else◌, Bool, true, false, List, [], ◌∷◌, ◌++◌, length, get_elem?, set, Option,
  none, some, Run, done, undefined, ◌>>=◌, load,
}
use flowstatd.Base.Words.{read_be16}
use flowstatd.V5.{add_flow_data_v5}
use flowstatd.V9.Tables.{Tables, init_tables}
use flowstatd.V9.Packet.{V9State, add_flow_data_v9}
use flowstatd.Daemon.{Machine, Datagram}

-- The file whose function a pointer points at.
pub data Version : Type 0 where
  v5 : Version
  v9 : Version

-- `NetflowHandlerFunc_t`
pub record Funcs : Type 0 where
  pub init : Version
  pub un_init : Version
  pub add_flow_data : Version

-- The objects that `malloc` gave, of which `none` has been freed, the pointers `g_nfHandlerV5` and
-- `g_nfHandlerV9`, of which `none` is NULL, and what the handlers work on.
pub record Objects : Type 0 where
  pub heap : List (Option Funcs)
  pub nf_handler_v5 : Option ℕ
  pub nf_handler_v9 : Option ℕ
  pub state : V9State

-- The tables before `Init` and after `UnInit`: there is no entry to access.
abbrev pub no_tables : Tables
no_tables = record { template_table = []; source_table = [] }

abbrev pub funcs_of : Version → Funcs
funcs_of v = record { init = v; un_init = v; add_flow_data = v }

-- `NewNetflowHandlerV5` and `NewNetflowHandlerV9`; a failure of `malloc` is not looked at.
unfoldable pub new_handler : Bool → Version → Objects → Run (ℕ × Objects)
new_handler false v o = undefined
new_handler true v o = done (length o.heap, record o { heap = o.heap ++ some (funcs_of v) ∷ [] })

-- The object at a pointer.
abbrev pub live : Option Funcs → Run Funcs
live none = undefined
live (some f) = done f

unfoldable pub object_at : Option ℕ → Objects → Run Funcs
object_at none o = undefined
object_at (some p) o = load (get_elem? o.heap p) >>= live

-- `NfHandlerInitV5Impl` and `NfHandlerInitV9Impl`
unfoldable pub init_impl : Bool → Version → Objects → Run Objects
init_impl room v5 o = done o
init_impl false v9 o = undefined
init_impl true v9 o = done (record o { state = record o.state { tables = init_tables } })

-- `NfHandlerUnInitV5Impl` and `NfHandlerUnInitV9Impl`
unfoldable pub un_init_impl : Version → Objects → Objects
un_init_impl v5 o = o
un_init_impl v9 o = record o { state = record o.state { tables = no_tables } }

-- `handler->Init(handler)`
unfoldable pub call_init : Bool → Option ℕ → Objects → Run Objects
call_init room p o = object_at p o >>= λ f. init_impl room f.init o

-- `NetflowHandlerInit`
unfoldable pub netflow_handler_init : Bool → Objects → Run Objects
netflow_handler_init room o = new_handler room v5 o >>= λ r.
    call_init room (some r.0) (record r.1 { nf_handler_v5 = some r.0 }) >>= λ o'.
    new_handler room v9 o' >>= λ s.
    call_init room (some s.0) (record s.1 { nf_handler_v9 = some s.0 })

-- `free(nfHandler)`
unfoldable pub free_object : Option ℕ → Objects → Objects
free_object none o = o
free_object (some p) o = record o { heap = set o.heap p none }

-- `FreeNetflowHandlerV5` and `FreeNetflowHandlerV9`: `UnInit` is called before the pointer is tested.
unfoldable pub free_handler : Option ℕ → Objects → Run Objects
unfolding free_object
free_handler p o = object_at p o >>= λ f. done (free_object p (un_init_impl f.un_init o))

-- `NetflowHandlerUnInit`. The two pointers keep their values.
unfoldable pub netflow_handler_un_init : Objects → Run Objects
netflow_handler_un_init o =
    free_handler o.nf_handler_v5 o >>= λ o'. free_handler o'.nf_handler_v9 o'

-- `AddFlowDataV5Impl` and `AddFlowDataV9Impl`
unfoldable pub add_flow_data_impl : Version → Machine → List ℕ → ℕ → ℕ → V9State → Run V9State
add_flow_data_impl v5 machine buf packet_len source_ip st =
    add_flow_data_v5 machine.platform buf packet_len st.flows >>= λ flows.
    done (record st { flows = flows })
add_flow_data_impl v9 machine buf packet_len source_ip st =
    add_flow_data_v9 machine.fuel machine.inner machine.platform machine.stale buf packet_len
      source_ip st

-- `nfHandler->AddFlowData(nfHandler, …)`
unfoldable pub call_add_flow_data : Option ℕ → Machine → List ℕ → ℕ → ℕ → Objects → Run Objects
call_add_flow_data p machine buf packet_len source_ip o = object_at p o >>= λ f.
    add_flow_data_impl f.add_flow_data machine buf packet_len source_ip o.state >>= λ st.
    done (record o { state = st })

-- `AddFlowData`, through the pointers.
unfoldable pub dispatch : Machine → List ℕ → ℕ → ℕ → Objects → Run Objects
dispatch machine buf packet_len source_ip o = read_be16 buf 0 >>= λ version.
    if version == 9
    then call_add_flow_data o.nf_handler_v9 machine buf packet_len source_ip o
    else if version == 5
    then call_add_flow_data o.nf_handler_v5 machine buf packet_len source_ip o
    else done o

-- The packets that the loop passes on.
unfoldable pub dispatch_all : Machine → List Datagram → Objects → Run Objects
dispatch_all machine [] o = done o
dispatch_all machine (p ∷ ps) o =
    dispatch machine p.buf p.n p.source_ip o >>= dispatch_all machine ps
