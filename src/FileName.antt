-- ===== src/FileName.antt =====
-- src/flowstatd.c (ExportRecord and main) and src/command.c (parseCmd): the names of the files of the counters.
pub mod Digits
pub mod Days
pub mod Yesterday
use flowstatd.Base.{
  ℕ, zero, suc, ◌+◌, ◌-◌, ◌/◌, ◌%◌, ltb, leb, ◌&&◌, if◌then◌else◌, [], ◌∷◌, ◌++◌, take,
}
use flowstatd.Config.Strings.{Text}
use flowstatd.Records.{File}
use flowstatd.Command.{strcmp}

-- The date of a `struct tm`: the years since 1900, the months since January, and the day of the month.
pub record Date : Type 0 where
  pub tm_year : ℕ
  pub tm_mon : ℕ
  pub tm_mday : ℕ

-- `%0wd`: the digits, at least `w` of them. Ten digits are enough for an `int`.
unfoldable pub print_number : ℕ → ℕ → ℕ → Text
print_number zero w n = []
print_number (suc fuel) w n =
    let rest = print_number fuel (w - 1) (n / 10) in
    if leb w 1 && ltb n 10 then (b'0' + n) ∷ [] else rest ++ (b'0' + n % 10) ∷ []

-- `"/flowstatdata."` and `".gz"`
abbrev pub text_stem : Text
text_stem =
    b'/' ∷ b'f' ∷ b'l' ∷ b'o' ∷ b'w' ∷ b's' ∷ b't' ∷ b'a' ∷ b't' ∷ b'd' ∷ b'a' ∷ b't' ∷ b'a' ∷ b'.'
    ∷ []

abbrev pub text_gz : Text
text_gz = b'.' ∷ b'g' ∷ b'z' ∷ []

-- `"%s/flowstatdata.%04d-%02d-%02d.gz"`
unfoldable pub format_name : Text → Date → Text
format_name prefix date =
    prefix
    ++ (text_stem
        ++ (print_number 10 4 (date.tm_year + 1900)
            ++ (b'-'
                ∷ (print_number 10 2 (date.tm_mon + 1)
                    ++ (b'-' ∷ (print_number 10 2 date.tm_mday ++ text_gz))))))

-- `snprintf(buf, size, …)`
abbrev pub snprintf : ℕ → Text → Text
snprintf size text = take (size - 1) text

-- The file that `ExportRecord` writes, for the date that it takes.
unfoldable pub export_name : Text → Date → Text
export_name prefix date = snprintf 99 (format_name prefix date)

-- The file that `main` reads at its start, and that `parseCmd` reads for a date.
unfoldable pub import_name : Text → Date → Text
import_name prefix date = snprintf 8191 (format_name prefix date)

-- `TODAY` and `YESTERDAY`
pub data Mode : Type 0 where
  today : Mode
  yesterday : Mode

-- The name for a mode: the date of `localtm`, or that of 86400 seconds before the time.
unfoldable pub mode_name : (ℕ → Date) → Text → Mode → Date → ℕ → Text
mode_name localtime prefix today localtm now = export_name prefix localtm
mode_name localtime prefix yesterday localtm now = export_name prefix (localtime (now - 86400))

-- The files under their names, and `gzopen(buf, "wb")` with what is written until `gzclose`.
abbrev pub Disk : Type 0
Disk = Text → File

unfoldable pub write_file : Text → File → Disk → Disk
write_file name file disk other = if strcmp other name then file else disk other
