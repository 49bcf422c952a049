-- ===== src/Select.antt =====
-- src/multiplex.c: the multiplexer over `select`. `select` itself is a parameter.
pub mod Bound
use flowstatd.Base.{ℕ, zero, suc, ◌+◌, ltb, ◌==◌, if◌then◌else◌, Bool, true, false}

-- `fd_set`
abbrev pub FdSet : Type 0
FdSet = ℕ → Bool

abbrev pub fd_zero : FdSet
fd_zero fd = false

abbrev pub fd_set : ℕ → FdSet → FdSet
fd_set fd s i = if i == fd then true else s i

abbrev pub fd_clr : ℕ → FdSet → FdSet
fd_clr fd s i = if i == fd then false else s i

-- `selectMultiplexer_t`
pub record Multiplexer : Type 0 where
  pub max_fd : ℕ
  pub evlist : FdSet
  pub chlist : FdSet

-- `selectInitImpl`
unfoldable pub init : Multiplexer
init = record { max_fd = 0; evlist = fd_zero; chlist = fd_zero }

-- `selectIsActiveImpl`
unfoldable pub is_active : Multiplexer → ℕ → Bool
is_active m fd = m.chlist fd

-- `selectAddToListImpl`
unfoldable pub add_to_list : Multiplexer → ℕ → Multiplexer
add_to_list m fd = record m {
  evlist = fd_set fd m.evlist;
  max_fd = if ltb m.max_fd fd then fd else m.max_fd;
}

-- The loop of `selectRemoveFromListImpl`, from `i - 1` down.
unfoldable pub find_max : ℕ → FdSet → ℕ → ℕ
find_max zero evlist max_fd = max_fd
find_max (suc i) evlist max_fd = let rest = find_max i evlist max_fd in if evlist i then i else rest

-- `selectRemoveFromListImpl`
unfoldable pub remove_from_list : Multiplexer → ℕ → Multiplexer
remove_from_list m fd = record m {
  evlist = fd_clr fd m.evlist;
  max_fd = find_max m.max_fd (fd_clr fd m.evlist) m.max_fd;
}

-- `selectWaitImpl`; `select` gets the number of descriptors to look at and the set to overwrite.
unfoldable pub wait : (ℕ → FdSet → FdSet) → Multiplexer → Multiplexer
wait select m = record m { chlist = select (m.max_fd + 1) m.evlist }
