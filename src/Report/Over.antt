-- ===== src/Report/Over.antt =====
-- `GetByFlow`: the entries over a quota.
use mathlib.Core.List.{Mem, mem-cons, not-mem-nil}
use mathlib.Core.List.Perm
use mathlib.Core.Bool.{Bool-set}
use mathlib.Core.Logic.Or
use flowstatd.Base.{
  ℕ, ◌+◌, ◌/◌, ◌%◌, ◌≤◌, ◌<◌, ◌≡◌, refl, arith, leb, ◌==◌, ◌&&◌, ◌||◌, if◌then◌else◌, Bool, true,
  false, List, [], ◌∷◌, All, done, undefined, Bool-cases, inl, inr, not,
}
use flowstatd.Base.Words.{word32}
use flowstatd.Flow.{HostFlow}
use flowstatd.Report.{
  mbytes, FlowEntry, flow_entry, listing, list_entry, over_entries, get_by_flow, Qsort,
}
use flowstatd.Report.Whitelist.{HasEnd, shown, is_shown_lem}
use flowstatd.Report.Order.{Descends, qsort-Descends}

-- The elements that pass a test.
abbrev pub filter_by : (HostFlow → Bool) → List HostFlow → List HostFlow
filter_by p [] = []
filter_by p (h ∷ hosts) = if p h then h ∷ filter_by p hosts else filter_by p hosts

abbrev pub any_by : (HostFlow → Bool) → List HostFlow → Bool
any_by p [] = false
any_by p (h ∷ hosts) = p h || any_by p hosts

-- Entries numbered from the rank after `rank`.
abbrev pub number : ℕ → List HostFlow → List FlowEntry
number rank [] = []
number rank (h ∷ hosts) = flow_entry ((rank + 1) % word32) h ∷ number ((rank + 1) % word32) hosts

-- A total of at least that many megabytes.
abbrev pub is_over : ℕ → HostFlow → Bool
is_over over_mb h = leb over_mb (h.nflow.sum / mbytes)

pub any_by-mem :
    (p : HostFlow → Bool) (h : HostFlow) (hosts : List HostFlow)
    → Mem h hosts
    → p h ≡ true
    → any_by p hosts ≡ true
any_by-mem p h [] m e = absurd (not-mem-nil m)
any_by-mem p h (x ∷ hosts) m e =
    Or.elim (Bool-set _ _) (mem-cons.0 m) (λ same. rw (← same, e))
      (λ later. ground (arith, any_by-mem p h hosts later e))

-- The entries that the answer is about.
abbrev pub is_listed : Bool → List ℕ → ℕ → HostFlow → Bool
is_listed show_all ws over_mb h = is_over over_mb h && shown show_all ws h

module _ (show_all : Bool) (ws : List ℕ) (over_mb : ℕ) (ended : HasEnd ws) where
  filter_by-below :
      (x : ℕ) (hosts : List HostFlow)
      → x / mbytes < over_mb
      → All (λ b. b.nflow.sum ≤ x) hosts
      → filter_by (is_listed show_all ws over_mb) hosts ≡ []
  filter_by-below x [] h all = refl
  filter_by-below x (b ∷ hosts) h all =
      let low : is_over over_mb b ≡ false = ground (arith, all.0) in
      rw low (filter_by-below x hosts h all.1)

  over_entries_lem :
      (hosts : List HostFlow) (rank : ℕ)
      → Descends hosts
      → any_by (λ h. not (is_over over_mb h)) hosts ≡ true
      → over_entries show_all ws over_mb hosts rank
        ≡ done (number rank (filter_by (is_listed show_all ws over_mb) hosts))
  unfolding over_entries list_entry
  over_entries_lem [] rank d e = cc
  over_entries_lem (h ∷ hosts) rank d e = elim (Bool-cases (is_over over_mb h)) [
    | inr low ↦ rw (low, filter_by-below h.nflow.sum hosts (ground arith) d.0)
    | inl high ↦
        let later : any_by (λ h. not (is_over over_mb h)) hosts ≡ true = rw high at e in
        elim (Bool-cases (shown show_all ws h)) [
          | inl s ↦ rw (
            high,
            is_shown_lem show_all ws h ended,
            s,
            over_entries_lem hosts ((rank + 1) % word32) d.1 later,
          )
          | inr s ↦
              rw (high, is_shown_lem show_all ws h ended, s, over_entries_lem hosts rank d.1 later)
        ]
  ]

  -- If every entry of the table is over the quota, the loop reads past the end of the table.
  over_entries_past :
      (hosts : List HostFlow) (rank : ℕ)
      → any_by (λ h. not (is_over over_mb h)) hosts ≡ false
      → over_entries show_all ws over_mb hosts rank ≡ undefined
  unfolding over_entries list_entry
  over_entries_past [] rank e = refl
  over_entries_past (h ∷ hosts) rank e = elim (Bool-cases (is_over over_mb h)) [
    | inr low ↦ ground arith
    | inl high ↦
        let later : any_by (λ h. not (is_over over_mb h)) hosts ≡ false = rw high at e in
        elim (Bool-cases (shown show_all ws h)) [
          | inl s ↦ rw (
            high,
            is_shown_lem show_all ws h ended,
            s,
            over_entries_past hosts ((rank + 1) % word32) later,
          )
          | inr s ↦
              rw (high, is_shown_lem show_all ws h ended, s, over_entries_past hosts rank later)
        ]
  ]

  -- For a quota above 0, a whitelist with a free cell, and a table with an entry below the quota, the
  -- answer to `showOverList` lists the entries of the sorted table that are over the quota and shown,
  -- all of them and in that order, with ranks from 1 on.
  pub get_by_flow_lem :
      (q : Qsort) (ip_table : List HostFlow) (low : HostFlow)
      → 0 < over_mb
      → Mem low ip_table
      → low.nflow.sum / mbytes < over_mb
      → get_by_flow q show_all ws over_mb ip_table
        ≡ done (listing (number 0 (filter_by (is_listed show_all ws over_mb) (q.qsort ip_table))))
  unfolding get_by_flow
  get_by_flow_lem q ip_table low positive m below =
      let member_sorted = (Perm.mem_iff (q.qsort-perm ip_table)).1 m in
      let some_low =
        any_by-mem (λ h. not (is_over over_mb h)) low (q.qsort ip_table) member_sorted
          (ground arith) in
      let nonzero : (over_mb == 0) ≡ false = ground arith in
      rw (nonzero, over_entries_lem (q.qsort ip_table) 0 (qsort-Descends q ip_table) some_low)
