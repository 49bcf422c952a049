-- ===== src/FileName/Days.antt =====
-- Which days have files of their own.
use flowstatd.Base.{
  ℕ, ◌+◌, true, ◌==◌, ◌↔◌, ◌≤◌, ◌<◌, ◌≡◌, ◌≢◌, refl, ap, sym, ◌∙◌, arith, [], ◌∷◌, ◌++◌, length,
  length-append, take, append-eq, take-append_short, length-take_le, take-all,
}
use mathlib.Core.List.{append_assoc}
use flowstatd.Config.Strings.{Text}
use flowstatd.Records.{File}
use flowstatd.Command.{strcmp}
use flowstatd.FileName.{
  Disk, write_file, Date, text_stem, text_gz, format_name, export_name, import_name,
}
use flowstatd.FileName.Digits.{
  print_digits, length-print_digits, print_digits_injective, print_number-print_digits,
}

-- A date with a year of four digits.
pub record IsDate (date : Date) : Type 0 where
  pub year : date.tm_year + 1900 < 10_000
  pub month : date.tm_mon < 12
  pub day : date.tm_mday < 32

-- The text behind the stem.
abbrev day_text : Date → Text
day_text date =
    print_digits 4 (date.tm_year + 1900)
    ++ (b'-'
        ∷ (print_digits 2 (date.tm_mon + 1) ++ (b'-' ∷ (print_digits 2 date.tm_mday ++ text_gz))))

format_name-day_text :
    (prefix : Text) (date : Date)
    → IsDate date
    → format_name prefix date ≡ prefix ++ (text_stem ++ day_text date)
unfolding format_name
format_name-day_text prefix date ok =
    rw
      (
        print_number-print_digits 10 3 (date.tm_year + 1900) (omega arith) (omega (arith, ok.year)),
        print_number-print_digits 10 1 (date.tm_mon + 1) (omega arith) (omega (arith, ok.month)),
        print_number-print_digits 10 1 date.tm_mday (omega arith) (omega (arith, ok.day)),
      )
      refl

length-day_text : (date : Date) → length (day_text date) ≡ 13
length-day_text date =
    let y = print_digits 4 (date.tm_year + 1900) in
    let m = print_digits 2 (date.tm_mon + 1) in
    let d = print_digits 2 date.tm_mday in
    omega (
      arith,
      length-append {A = ℕ} y (b'-' ∷ (m ++ (b'-' ∷ (d ++ text_gz)))),
      length-append {A = ℕ} m (b'-' ∷ (d ++ text_gz)),
      length-append {A = ℕ} d text_gz,
      length-print_digits 4 (date.tm_year + 1900),
      length-print_digits 2 (date.tm_mon + 1),
      length-print_digits 2 date.tm_mday,
    )

length-format_name :
    (prefix : Text) (date : Date)
    → IsDate date
    → length (format_name prefix date) ≡ length prefix + 27
length-format_name prefix date ok = rw (format_name-day_text prefix date ok) (
    omega (
      arith,
      length-append {A = ℕ} prefix (text_stem ++ day_text date),
      length-append {A = ℕ} text_stem (day_text date),
      length-day_text date,
    ))

-- The date can be read from the digits.
day_text_injective : (d e : Date) → IsDate d → IsDate e → day_text d ≡ day_text e → d ≡ e
day_text_injective d e ok ok' same =
    let digits = λ (w : ℕ) (m n : ℕ). length-print_digits w m ∙ sym (length-print_digits w n) in
    let (y, behind_y) =
      append-eq (print_digits 4 (d.tm_year + 1900)) (print_digits 4 (e.tm_year + 1900)) _ _
        (digits 4 (d.tm_year + 1900) (e.tm_year + 1900)) same in
    let (dash, behind_dash) = append-eq (b'-' ∷ []) (b'-' ∷ []) _ _ refl behind_y in
    let (m, behind_m) =
      append-eq (print_digits 2 (d.tm_mon + 1)) (print_digits 2 (e.tm_mon + 1)) _ _
        (digits 2 (d.tm_mon + 1) (e.tm_mon + 1)) behind_dash in
    let (dash', behind_dash') = append-eq (b'-' ∷ []) (b'-' ∷ []) _ _ refl behind_m in
    let (day, gz) =
      append-eq (print_digits 2 d.tm_mday) (print_digits 2 e.tm_mday) _ _
        (digits 2 d.tm_mday e.tm_mday) behind_dash' in
    let year_eq =
      print_digits_injective 4 (d.tm_year + 1900) (e.tm_year + 1900) (omega (arith, ok.year))
        (omega (arith, ok'.year)) y in
    let month_eq =
      print_digits_injective 2 (d.tm_mon + 1) (e.tm_mon + 1) (omega (arith, ok.month))
        (omega (arith, ok'.month)) m in
    let day_eq =
      print_digits_injective 2 d.tm_mday e.tm_mday (omega (arith, ok.day)) (omega (arith, ok'.day))
        day in
    let years : d.tm_year ≡ e.tm_year = omega (arith, year_eq) in
    let months : d.tm_mon ≡ e.tm_mon = omega (arith, month_eq) in date_eq years months day_eq
  where
    date_eq : d.tm_year ≡ e.tm_year → d.tm_mon ≡ e.tm_mon → d.tm_mday ≡ e.tm_mday → d ≡ e
    date_eq a b c = cc

name_eq :
    (prefix : Text) (d e : Date)
    → IsDate d
    → IsDate e
    → format_name prefix d ≡ format_name prefix e
    → d ≡ e
name_eq prefix d e ok ok' same =
    let whole : prefix ++ (text_stem ++ day_text d) ≡ prefix ++ (text_stem ++ day_text e) =
      sym (format_name-day_text prefix d ok) ∙ same ∙ format_name-day_text prefix e ok' in
    let (p, behind) = append-eq prefix prefix _ _ refl whole in
    let (s, texts) = append-eq text_stem text_stem (day_text d) (day_text e) refl behind in
    day_text_injective d e ok ok' texts

-- With a directory of at most 71 bytes and years of four digits, the file that `ExportRecord` writes for a date is the
-- one that the start of the daemon and a request for this date read, and it is that of no other date.
pub export_name-import_name :
    (prefix : Text) (d e : Date)
    → length prefix ≤ 71
    → IsDate d
    → IsDate e
    → (export_name prefix d ≡ import_name prefix d)
      × ((export_name prefix d ≡ export_name prefix e) ↔ (d ≡ e))
unfolding export_name import_name
export_name-import_name prefix d e short ok ok' =
    let small = λ (x : Date) (okx : IsDate x) (n : ℕ) (h : 98 ≤ n).
      take-all n (format_name prefix x)
        (omega (arith, length-format_name prefix x okx, short, h)) in
    (
      small d ok 98 (omega arith) ∙ sym (small d ok 8190 (omega arith)),
      (
        λ same.
            name_eq prefix d e ok ok'
              (sym (small d ok 98 (omega arith)) ∙ same ∙ small e ok' 98 (omega arith)),
        λ same. ap (λ (x : Date). take 98 (format_name prefix x)) same,
      ),
    )

-- With a directory of 84 to 99 bytes, for which `savePrefix` has room, `ExportRecord` writes the counters of all
-- dates to one file, and neither the start of the daemon nor a request reads that file.
pub export_name_cut :
    (prefix : Text) (d e : Date)
    → 84 ≤ length prefix
    → length prefix ≤ 99
    → IsDate d
    → IsDate e
    → (export_name prefix d ≡ export_name prefix e) × (export_name prefix d ≢ import_name prefix d)
unfolding export_name import_name
export_name_cut prefix d e long fits ok ok' = (cut d ok ∙ sym (cut e ok'), λ same. other same)
  where
    stem_end : length (prefix ++ text_stem) ≡ length prefix + 14
    stem_end = length-append {A = ℕ} prefix text_stem

    cut : (x : Date) → IsDate x → take 98 (format_name prefix x) ≡ take 98 (prefix ++ text_stem)
    cut x okx =
        ap (take 98)
          (format_name-day_text prefix x okx ∙ sym (append_assoc prefix text_stem (day_text x)))
        ∙ take-append_short 98 (prefix ++ text_stem) (day_text x) (omega (arith, stem_end, long))

    other : take 98 (format_name prefix d) ≡ take 8190 (format_name prefix d) → ⊥
    other same =
        let size = length-format_name prefix d ok in
        let whole = take-all 8190 (format_name prefix d) (omega (arith, size, fits)) in
        let few = length-take_le 98 (format_name prefix d) in
        let equal : length (take 98 (format_name prefix d)) ≡ length (format_name prefix d) =
          ap length (same ∙ whole) in
        omega (arith, size, few, equal, long)

strcmp_self : (s : Text) → strcmp s s ≡ true
unfolding strcmp
strcmp_self [] = refl
strcmp_self (c ∷ s) = let same : (c == c) ≡ true = (ground arith) in rw (same, strcmp_self s) refl

-- What `ExportRecord` wrote for a date is what is read for it, with a directory of at most 71 bytes.
pub write_file-import_name :
    (prefix : Text) (date : Date) (file : File) (disk : Disk)
    → length prefix ≤ 71
    → IsDate date
    → write_file (export_name prefix date) file disk (import_name prefix date) ≡ file
unfolding write_file
write_file-import_name prefix date file disk short ok =
    let named = (export_name-import_name prefix date date short ok ok).0 in
    let found : strcmp (import_name prefix date) (export_name prefix date) ≡ true =
      ap (λ (name : Text). strcmp name (export_name prefix date)) (sym named)
      ∙ strcmp_self (export_name prefix date) in
    rw found refl
