-- ===== src/Select/Bound.antt =====
-- The descriptors that `select` is told to look at.
use flowstatd.Base.{
  ℕ, zero, suc, ◌+◌, ◌≤◌, ◌<◌, ◌≡◌, ◌≢◌, arith, ltb, ◌&&◌, true, false, Bool-cases, inl, inr,
}
use flowstatd.Select.{
  FdSet, fd_clr, Multiplexer, init, is_active, add_to_list, find_max, remove_from_list, wait,
}

-- Every monitored descriptor is at most `max_fd`.
abbrev pub IsBounded : Multiplexer → Type 0
IsBounded m = (fd : ℕ) → m.evlist fd ≡ true → fd ≤ m.max_fd

-- What POSIX says of `select`: of the descriptors below the given number, those in the set that are
-- ready, and no other.
abbrev pub Selects : FdSet → (ℕ → FdSet → FdSet) → Type 0
Selects ready select =
    (n : ℕ) (s : FdSet) (fd : ℕ) → select n s fd ≡ (ltb fd n && (s fd && ready fd))

pub init-IsBounded : IsBounded init
unfolding init
init-IsBounded fd h = cc

-- Adding a descriptor keeps `max_fd` a bound of the monitored ones.
pub add_to_list-IsBounded : (m : Multiplexer) (fd : ℕ) → IsBounded m → IsBounded (add_to_list m fd)
unfolding add_to_list
add_to_list-IsBounded m fd bounded i h = ground (arith, bounded i)

-- The loop stops at the greatest descriptor of the set.
find_max_le : (n : ℕ) (s : FdSet) (max_fd fd : ℕ) → fd < n → s fd ≡ true → fd ≤ find_max n s max_fd
unfolding find_max
find_max_le zero s max_fd fd h e = absurd (omega arith)
find_max_le (suc n) s max_fd fd h e = elim (Bool-cases (s n)) [
  | inl found ↦ rw found (omega arith)
  | inr missing ↦ rw missing (find_max_le n s max_fd fd (ground arith) e)
]

-- Removing the greatest monitored descriptor keeps the bound.
pub remove_from_list-IsBounded :
    (m : Multiplexer) → IsBounded m → IsBounded (remove_from_list m m.max_fd)
unfolding remove_from_list
remove_from_list-IsBounded m bounded fd h =
    find_max_le m.max_fd (fd_clr m.max_fd m.evlist) m.max_fd fd (ground (arith, bounded fd)) h

find_max_lt : (n : ℕ) (s : FdSet) (max_fd fd : ℕ) → fd < n → s fd ≡ true → find_max n s max_fd < n
unfolding find_max
find_max_lt zero s max_fd fd h e = absurd (omega arith)
find_max_lt (suc n) s max_fd fd h e = elim (Bool-cases (s n)) [
  | inl found ↦ rw found (omega arith)
  | inr missing ↦ rw missing (omega (arith, find_max_lt n s max_fd fd (ground arith) e))
]

-- Removing a descriptor that is not the greatest, while another one below the greatest is monitored,
-- leaves the greatest one in the set but out of what `select` looks at: it is never active.
pub remove_from_list_loses :
    (m : Multiplexer) (ready : FdSet) (select : ℕ → FdSet → FdSet) (fd low : ℕ)
    → fd ≢ m.max_fd
    → fd ≢ low
    → low < m.max_fd
    → m.evlist low ≡ true
    → m.evlist m.max_fd ≡ true
    → Selects ready select
    → ((remove_from_list m fd).evlist m.max_fd ≡ true)
      × (is_active (wait select (remove_from_list m fd)) m.max_fd ≡ false)
unfolding remove_from_list is_active wait
remove_from_list_loses m ready select fd low other apart h e top law =
    let lower = find_max_lt m.max_fd (fd_clr fd m.evlist) m.max_fd low h (ground (arith, apart)) in
    (ground (arith, other), rw (law _ (fd_clr fd m.evlist) m.max_fd) (ground arith))

-- A descriptor is active after a wait exactly if it is monitored and ready.
pub is_active-wait :
    (m : Multiplexer) (ready : FdSet) (select : ℕ → FdSet → FdSet) (fd : ℕ)
    → IsBounded m
    → Selects ready select
    → is_active (wait select m) fd ≡ (m.evlist fd && ready fd)
unfolding is_active wait
is_active-wait m ready select fd bounded law = elim (Bool-cases (m.evlist fd)) [
  | inl on ↦ rw (law (m.max_fd + 1) m.evlist fd, on) (ground (arith, bounded fd on))
  | inr off ↦ rw (law (m.max_fd + 1) m.evlist fd, off) (ground arith)
]
