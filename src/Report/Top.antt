-- ===== src/Report/Top.antt =====
-- `GetByTopN`: the first entries that are shown.
use flowstatd.Base.{
  ℕ, zero, suc, ◌+◌, ◌-◌, ◌%◌, ◌≤◌, ◌<◌, ◌≡◌, refl, arith, leb, ltb, ◌==◌, ◌||◌, Bool, true, false,
  List, [], ◌∷◌, length, done, undefined, Bool-cases, inl, inr,
}
use flowstatd.Base.Words.{word32}
use flowstatd.Flow.{HostFlow}
use flowstatd.Report.{listing, list_entry, top_entries, get_by_top_n, Qsort}
use flowstatd.Report.Whitelist.{HasEnd, shown, is_shown_lem}
use flowstatd.Report.Over.{filter_by, number}

abbrev pub first_n : ℕ → List HostFlow → List HostFlow
first_n zero hosts = []
first_n (suc n) [] = []
first_n (suc n) (h ∷ hosts) = h ∷ first_n n hosts

module _ (show_all : Bool) (ws : List ℕ) (top_n : ℕ) (ended : HasEnd ws)
    (small : top_n < word32) where
  -- With `n` entries to list and as many left that are shown, the loop lists the first `n` of them.
  top_entries_lem :
      (hosts : List HostFlow) (n rank : ℕ)
      → rank + n ≡ top_n
      → n ≤ length (filter_by (shown show_all ws) hosts)
      → top_entries show_all ws top_n hosts rank
        ≡ done (number rank (first_n n (filter_by (shown show_all ws) hosts)))
  unfolding top_entries list_entry
  top_entries_lem [] zero rank e h = ground arith
  top_entries_lem [] (suc n) rank e h = absurd (omega arith)
  top_entries_lem (host ∷ hosts) zero rank e h =
      let stop : ltb rank top_n ≡ false = ground arith in rw (stop, top_entries) refl
  top_entries_lem (host ∷ hosts) (suc n) rank e h =
      let go : ltb rank top_n ≡ true = ground arith in
      let next : (rank + 1) % word32 ≡ rank + 1 = omega arith in
      elim (Bool-cases (shown show_all ws host)) [
        | inl s ↦
            let left : suc n ≤ suc (length (filter_by (shown show_all ws) hosts)) = rw s at h in
            rw
              (
                go,
                is_shown_lem show_all ws host ended,
                s,
                next,
                top_entries_lem hosts n (rank + 1) (omega arith) (omega (arith, left)),
              )
              refl
        | inr s ↦
            rw (go, is_shown_lem show_all ws host ended, s)
              (top_entries_lem hosts (suc n) rank e (rw s at h))
      ]

  -- With fewer entries left that are shown, the loop reads past the end of the table.
  top_entries_past :
      (hosts : List HostFlow) (n rank : ℕ)
      → rank + n ≡ top_n
      → length (filter_by (shown show_all ws) hosts) < n
      → top_entries show_all ws top_n hosts rank ≡ undefined
  unfolding top_entries list_entry
  top_entries_past [] n rank e h = ground arith
  top_entries_past (host ∷ hosts) n rank e h =
      let go : ltb rank top_n ≡ true = ground arith in
      let next : (rank + 1) % word32 ≡ rank + 1 = omega arith in
      elim (Bool-cases (shown show_all ws host)) [
        | inl s ↦
            let left : suc (length (filter_by (shown show_all ws) hosts)) < n = rw s at h in
            rw
              (
                go,
                is_shown_lem show_all ws host ended,
                s,
                next,
                top_entries_past hosts (n - 1) (rank + 1) (omega (arith, left))
                    (omega (arith, left)),
              )
              refl
        | inr s ↦
            rw (go, is_shown_lem show_all ws host ended, s)
              (top_entries_past hosts n rank e (rw s at h))
      ]

  -- For a whitelist with a free cell and a limit above 0 and below the size of the table and 2^32: if
  -- at least as many entries are shown as the limit says, the answer to `showTopList` lists the first
  -- of the sorted table that are shown, exactly so many, with ranks from 1 on.
  pub get_by_top_n_lem :
      (q : Qsort) (ip_table : List HostFlow)
      → 0 < top_n
      → top_n < length ip_table
      → top_n ≤ length (filter_by (shown show_all ws) (q.qsort ip_table))
      → get_by_top_n q show_all ws top_n ip_table
        ≡ done
            (listing (number 0 (first_n top_n (filter_by (shown show_all ws) (q.qsort ip_table)))))
  unfolding get_by_top_n
  get_by_top_n_lem q ip_table positive below enough =
      let valid : (top_n == 0 || leb (length ip_table) top_n) ≡ false = ground arith in
      rw (valid, top_entries_lem (q.qsort ip_table) top_n 0 (omega arith) enough) refl

  -- If fewer are shown, as a whitelist can make it, the loop reads past the end of the table.
  pub get_by_top_n_past :
      (q : Qsort) (ip_table : List HostFlow)
      → 0 < top_n
      → top_n < length ip_table
      → length (filter_by (shown show_all ws) (q.qsort ip_table)) < top_n
      → get_by_top_n q show_all ws top_n ip_table ≡ undefined
  unfolding get_by_top_n
  get_by_top_n_past q ip_table positive below few =
      let valid : (top_n == 0 || leb (length ip_table) top_n) ≡ false = ground arith in
      rw (valid, top_entries_past (q.qsort ip_table) top_n 0 (omega arith) few) refl
