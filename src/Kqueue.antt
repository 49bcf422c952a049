-- ===== src/Kqueue.antt =====
-- src/multiplex.c: the multiplexer over `kqueue`, for a build that defines USE_KQUEUE. `kqueue` and `kevent`
-- are parameters.
pub mod Bound
use flowstatd.Base.{
  ℕ, zero, suc, ◌+◌, ◌-◌, ◌%◌, ◌==◌, ◌&&◌, not, if◌then◌else◌, Bool, true, false, List, take,
  get_elem?, set, Option, none, some, Run, done, ◌>>=◌, load,
}
use flowstatd.Base.Words.{word32}

-- A change of `chlist`: `EV_ADD | EV_ENABLE`, or `EV_DELETE | EV_DISABLE`, for a descriptor.
pub data Change : Type 0 where
  watch : ℕ → Change
  unwatch : ℕ → Change

-- An event of `evlist`, with its descriptor and whether `EV_ERROR` is set.
pub record Event : Type 0 where
  pub ident : ℕ
  pub error : Bool

-- `kqueueMultiplexer_t`
pub record Multiplexer : Type 0 where
  pub kq_fd : ℕ
  pub evlist : List Event
  pub chlist : List Change
  pub monitor_fd_count : ℕ

abbrev pub max_monitor_fd_count : ℕ
max_monitor_fd_count = 2

-- `kqueueInitImpl`, for what `kqueue` returns; `none` is -1.
unfoldable pub init : Option ℕ → Multiplexer → ℕ × Multiplexer
init none m = (0, m)
init (some fd) m = (1, record m { kq_fd = fd; monitor_fd_count = 0 })

-- The loop of `kqueueIsActiveImpl` from `i` on, for the rounds left.
unfoldable pub find_event : ℕ → List Event → ℕ → ℕ → Run Bool
find_event zero evlist fd i = done false
find_event (suc rounds) evlist fd i = load (get_elem? evlist i) >>= λ e.
    elim (e.ident == fd && not e.error) [
      | true ↦ done true
      | false ↦ find_event rounds evlist fd (i + 1)
    ]

-- `kqueueIsActiveImpl`
unfoldable pub is_active : Multiplexer → ℕ → Run Bool
is_active m fd = find_event m.monitor_fd_count m.evlist fd 0

-- `EV_SET` of a cell of `chlist`.
unfoldable pub set_change : List Change → ℕ → Change → Run (List Change)
set_change chlist i c = load (get_elem? chlist i) >>= λ old. done (set chlist i c)

-- `kqueueAddToListImpl`
unfoldable pub add_to_list : Multiplexer → ℕ → Run Multiplexer
add_to_list m fd = set_change m.chlist m.monitor_fd_count (watch fd) >>= λ chlist.
    done (record m { chlist = chlist; monitor_fd_count = (m.monitor_fd_count + 1) % word32 })

-- `kqueueRemoveFromListImpl`
unfoldable pub remove_from_list : Multiplexer → ℕ → Run Multiplexer
remove_from_list m fd = set_change m.chlist m.monitor_fd_count (unwatch fd) >>= λ chlist.
    done (record m {
      chlist = chlist;
      monitor_fd_count = (m.monitor_fd_count + (word32 - 1)) % word32;
    })

-- What `kevent` is given as changes.
abbrev pub submitted : Multiplexer → List Change
submitted m = take m.monitor_fd_count m.chlist

-- `kqueueWaitImpl`; `kevent` makes a new `evlist` of the changes and the old one.
unfoldable pub wait : (List Change → List Event → List Event) → Multiplexer → Multiplexer
wait kevent m = record m { evlist = kevent (submitted m) m.evlist }
