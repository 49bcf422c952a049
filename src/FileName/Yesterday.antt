-- ===== src/FileName/Yesterday.antt =====
-- The turn of the day.
use flowstatd.Base.{
  ℕ, ◌+◌, ◌-◌, ◌*◌, ◌/◌, ◌%◌, ltb, if◌then◌else◌, Bool-cases, inl, inr, ◌≤◌, ◌<◌, ◌≡◌, ap, arith,
}
use flowstatd.Config.Strings.{Text}
use flowstatd.FileName.{Date, export_name, yesterday, mode_name}

-- The number of the local day, for the seconds that the local time is ahead.
abbrev pub local_day : (ℕ → ℕ) → ℕ → ℕ
local_day offset t = (t + offset t) / 86400

-- From the third day of the epoch on, with a local time that is ahead of `time` by some seconds, and by no fewer and at most a
-- day more than 86400 seconds before: `ExportRecord(YESTERDAY)` takes the file of the day before, unless the clock was put
-- forward in these 86400 seconds by more than the time since midnight; then it takes the file of the day before that.
pub mode_name-yesterday :
    (date_of : ℕ → Date) (offset : ℕ → ℕ) (prefix : Text) (localtm : Date) (t : ℕ)
    → 86400 * 2 ≤ t
    → offset (t - 86400) ≤ offset t
    → offset t ≤ offset (t - 86400) + 86400
    → mode_name (λ u. date_of (local_day offset u)) prefix yesterday localtm t
      ≡ export_name prefix (
          date_of (
            if ltb ((t + offset t) % 86400) (offset t - offset (t - 86400))
            then local_day offset t - 2
            else local_day offset t - 1))
unfolding mode_name
mode_name-yesterday date_of offset prefix localtm t late forward few =
    ap (λ (day : ℕ). export_name prefix (date_of day))
      (day t (offset t) (offset (t - 86400)) late forward few)
  where
    day :
        (t a b : ℕ)
        → 86400 * 2 ≤ t
        → b ≤ a
        → a ≤ b + 86400
        → (t - 86400 + b) / 86400
          ≡ (if ltb ((t + a) % 86400) (a - b) then (t + a) / 86400 - 2 else (t + a) / 86400 - 1)
    day t a b late forward few = elim (Bool-cases (ltb ((t + a) % 86400) (a - b))) [
      | inl before ↦
          let less : (t + a) % 86400 < a - b = (ground (arith, before)) in
          rw before (omega (arith, late, forward, few, less))
      | inr behind ↦
          let more : a - b ≤ (t + a) % 86400 = (ground (arith, behind)) in
          rw behind (omega (arith, late, forward, few, more))
    ]
