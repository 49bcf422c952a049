-- ===== src/Tests/Names.antt =====
-- The names of the files.
use flowstatd.Base.{
  ℕ, ◌-◌, ◌+◌, ◌%◌, ◌≡◌, ◌≢◌, ◌↔◌, if◌then◌else◌, arith, ltb, List, ◌∷◌, replicate,
}
use flowstatd.FileName.{Date, export_name, import_name, mode_name, yesterday}
use flowstatd.FileName.Days.{IsDate, export_name-import_name, export_name_cut}
use flowstatd.FileName.Yesterday.{local_day, mode_name-yesterday}

-- The 4th of March 2012.
abbrev pub march : Date
march = record { tm_year = 112; tm_mon = 2; tm_mday = 4 }

pub march-IsDate : IsDate march
march-IsDate = record { year = omega arith; month = omega arith; day = omega arith }

-- The day behind it.
abbrev march_5 : Date
march_5 = record { tm_year = 112; tm_mon = 2; tm_mday = 5 }

march_5-IsDate : IsDate march_5
march_5-IsDate = record { year = omega arith; month = omega arith; day = omega arith }

abbrev dir : ℕ → List ℕ
dir n = b'/' ∷ replicate n b'd'

export_name-import_name_example :
    (export_name (dir 10) march ≡ import_name (dir 10) march)
    × ((export_name (dir 10) march ≡ export_name (dir 10) march_5) ↔ (march ≡ march_5))
export_name-import_name_example =
    export_name-import_name (dir 10) march march_5 (omega arith) march-IsDate march_5-IsDate

export_name_cut_example :
    (export_name (dir 89) march ≡ export_name (dir 89) march_5)
    × (export_name (dir 89) march ≢ import_name (dir 89) march)
export_name_cut_example =
    export_name_cut (dir 89) march march_5 (omega arith) (omega arith) march-IsDate march_5-IsDate

-- A clock that is put forward by an hour at second 864000, and a half hour after the midnight behind it.
abbrev summer : ℕ → ℕ
summer t = if ltb t 864_000 then 0 else 3600

abbrev date_of : ℕ → Date
date_of day = record { tm_year = 112; tm_mon = 2; tm_mday = day }

mode_name-yesterday_example :
    mode_name (λ u. date_of (local_day summer u)) (dir 10) yesterday march 948_600
    ≡ export_name (dir 10) (
        date_of (
          if ltb ((948_600 + summer 948_600) % 86400) (summer 948_600 - summer (948_600 - 86400))
          then local_day summer 948_600 - 2
          else local_day summer 948_600 - 1))
mode_name-yesterday_example =
    mode_name-yesterday date_of summer (dir 10) march 948_600 (omega arith) (omega arith)
      (omega arith)
