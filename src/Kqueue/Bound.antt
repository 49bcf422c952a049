-- ===== src/Kqueue/Bound.antt =====
-- How many descriptors the multiplexer over `kqueue` can hold.
use mathlib.Core.List.{append-nil, append_assoc}
use flowstatd.Base.{
  >>=-Returns, sym, ◌-◌, ℕ, zero, suc, ◌+◌, ◌%◌, ◌≤◌, ◌<◌, ◌≡◌, refl, ap, ◌∙◌, arith, List, [], ◌∷◌,
  ◌++◌, map, length, length-set, take, set, get_elem?-some, get_elem?-none, Run, done, undefined,
  Returns, Returns-weaken, ◌>>=◌, some,
}
use flowstatd.Base.Words.{word32}
use flowstatd.Kqueue.{
  init, Change, watch, Multiplexer, max_monitor_fd_count, set_change, add_to_list, remove_from_list,
  submitted,
}

-- One descriptor after the other, as `main` adds its sockets.
unfoldable pub add_all : Multiplexer → List ℕ → Run Multiplexer
add_all m [] = done m
add_all m (fd ∷ fds) = add_to_list m fd >>= λ m'. add_all m' fds

take-set :
    (chlist : List Change) (i : ℕ) (c : Change)
    → i < length chlist
    → take (suc i) (set chlist i c) ≡ take i chlist ++ c ∷ []
take-set [] i c h = absurd (omega (arith, h))
take-set (x ∷ xs) zero c h = refl
take-set (x ∷ xs) (suc i) c h =
    ap (λ (ys : List Change). x ∷ ys) (take-set xs i c (omega (arith, h)))

-- The array has its two cells, and this many are in use.
abbrev pub Holds : ℕ → Multiplexer → Type 0
Holds n m = (length m.chlist ≡ max_monitor_fd_count) × (m.monitor_fd_count ≡ n)

add_to_list-Holds :
    (m : Multiplexer) (fd n : ℕ)
    → Holds n m
    → n < max_monitor_fd_count
    → Returns
        (add_to_list m fd)
        (λ m'. Holds (suc n) m' × (submitted m' ≡ submitted m ++ watch fd ∷ []))
unfolding add_to_list set_change
add_to_list-Holds m fd n (size, count) room =
    let inside : m.monitor_fd_count < length m.chlist = omega (arith, size, count, room) in
    let (old, e) = get_elem?-some m.chlist m.monitor_fd_count inside in
    let next : (m.monitor_fd_count + 1) % word32 ≡ suc m.monitor_fd_count =
      omega (arith, count, room) in
    rw (e, next)
      (
        (length-set m.chlist m.monitor_fd_count (watch fd) ∙ size, omega (arith, count)),
        take-set m.chlist m.monitor_fd_count (watch fd) inside,
      )

add_all-Holds :
    (fds : List ℕ) (m : Multiplexer) (n : ℕ)
    → Holds n m
    → n + length fds ≤ max_monitor_fd_count
    → Returns
        (add_all m fds)
        (λ m'. Holds (n + length fds) m' × (submitted m' ≡ submitted m ++ map watch fds))
unfolding add_all
add_all-Holds [] m n (size, count) room =
    ((size, omega (arith, count)), sym (append-nil (submitted m)))
add_all-Holds (fd ∷ fds) m n holds room =
    >>=-Returns (add_to_list m fd) (λ m'. add_all m' fds)
      (λ m'. Holds (suc n) m' × (submitted m' ≡ submitted m ++ watch fd ∷ [])) _
      (add_to_list-Holds m fd n holds (omega (arith, room)))
      (λ m' k.
        Returns-weaken (add_all m' fds) _ _ (add_all-Holds fds m' (suc n) k.0 (omega (arith, room)))
          (λ end e. (
            (e.0.0, omega (arith, e.0.1)),
            e.1
                ∙ ap (λ (cs : List Change). cs ++ map watch fds) k.1
                ∙ append_assoc (submitted m) (watch fd ∷ []) (map watch fds),
          )))

-- A multiplexer over `kqueue` whose `kqueue` succeeded, and at most two descriptors that are added to
-- it: no call leaves the array of changes, and `kevent` is then given exactly the request to watch each
-- of them, in the order in which they were added.
pub add_all-submitted :
    (m : Multiplexer) (kq : ℕ) (fds : List ℕ)
    → length m.chlist ≡ max_monitor_fd_count
    → length fds ≤ max_monitor_fd_count
    → Returns (add_all (init (some kq) m).1 fds) (λ m'. submitted m' ≡ map watch fds)
unfolding init
add_all-submitted m kq fds size few =
    let m' : Multiplexer = record m { kq_fd = kq; monitor_fd_count = 0 } in
    Returns-weaken (add_all m' fds) _ _ (add_all-Holds fds m' 0 (size, refl) (omega (arith, few)))
      (λ end e. e.1)

-- With two descriptors, a third, or the removal of any, is written behind the array.
pub add_to_list_full :
    (m : Multiplexer) (fd : ℕ)
    → Holds max_monitor_fd_count m
    → (add_to_list m fd ≡ undefined) × (remove_from_list m fd ≡ undefined)
unfolding add_to_list remove_from_list set_change
add_to_list_full m fd (size, count) =
    let outside = get_elem?-none m.chlist m.monitor_fd_count (omega (arith, size, count)) in
    (rw outside refl, rw outside refl)

-- With one descriptor, the removal of any is never given to `kevent`, and the one that was added is
-- forgotten.
pub remove_from_list_lost :
    (m : Multiplexer) (fd : ℕ)
    → Holds 1 m
    → Returns (remove_from_list m fd) (λ m'. submitted m' ≡ [])
unfolding remove_from_list set_change
remove_from_list_lost m fd (size, count) =
    let inside : m.monitor_fd_count < length m.chlist = omega (arith, size, count) in
    let (old, e) = get_elem?-some m.chlist m.monitor_fd_count inside in
    let none_left : (m.monitor_fd_count + (word32 - 1)) % word32 ≡ 0 = omega (arith, count) in
    rw (e, none_left) refl
