-- ===== src/System/Timestamps.antt =====
-- The times of generations: `parse_timestamp_to_epoch` and `current_timestamp` of
-- snix-redox/src/system.rs, on 64 bits.
use nix_redox.Base.{
  ℕ, zero, suc, ◌+◌, ◌-◌, ◌*◌, ◌%◌, ◌^◌, ◌==◌, ltb, Text, Bool, not, ◌&&◌, ◌||◌, Option, none, some,
  List, [], ◌∷◌, length, if◌then◌else◌, get_elem?,
}
use nix_redox.Base.Slices.{trim_end}
use nix_redox.Base.Decimal.{parse_unsigned}
use nix_redox.Base.Words.{split}

abbrev pub is_leap_year : ℕ → Bool
is_leap_year y = y % 4 == 0 && not (y % 100 == 0) || y % 400 == 0

-- The days of the years from `y` on.
unfoldable pub year_loop : ℕ → ℕ → ℕ → ℕ
year_loop zero y total = total
year_loop (suc n) y total =
    year_loop n (y + 1) ((total + (if is_leap_year y then 366 else 365)) % 2 ^ 64)

abbrev pub days_in_month : List ℕ
days_in_month = 0 ∷ 31 ∷ 28 ∷ 31 ∷ 30 ∷ 31 ∷ 30 ∷ 31 ∷ 31 ∷ 30 ∷ 31 ∷ 30 ∷ 31 ∷ []

-- The days of `n` months from `m` on. An index out of range is a panic, none.
unfoldable pub month_loop : ℕ → ℕ → ℕ → ℕ → Option ℕ
month_loop year zero m total = some total
month_loop year (suc n) m total = elim (get_elem? days_in_month m) [
  | none ↦ none
  | some days ↦
      month_loop year n (m + 1)
        ((total + days + (if m == 2 && is_leap_year year then 1 else 0)) % 2 ^ 64)
]

abbrev number : Text → ℕ
number s = elim (parse_unsigned (2 ^ 64) s) [ none ↦ 0 | some n ↦ n ]

-- `day - 1` wraps for the day 0.
unfoldable pub to_epoch : ℕ → ℕ → ℕ → ℕ → ℕ → ℕ → Option ℕ
unfolding year_loop month_loop
to_epoch year month day hour minute second =
    elim (month_loop year (month - 1) 1 (year_loop (year - 1970) 1970 0)) [
      | none ↦ none
      | some days ↦
          let total_days = days + (day + (2 ^ 64 - 1)) % 2 ^ 64 in
          some ((total_days * 86400 + hour * 3600 + minute * 60 + second) % 2 ^ 64)
    ]

abbrev date_time : List Text → List Text → Option ℕ
date_time (year ∷ month ∷ day ∷ []) (hour ∷ minute ∷ second ∷ []) =
    to_epoch (number year) (number month) (number day) (number hour) (number minute) (number second)
date_time (year ∷ month ∷ day ∷ []) time = some 0
date_time date time = some 0

-- 0 is the answer for what is not a time, none a panic.
abbrev timestamp_parts : List Text → Option ℕ
timestamp_parts (date ∷ time ∷ []) = date_time (split b'-' date) (split b':' (trim_end b'Z' time))
timestamp_parts parts = some 0

unfoldable pub parse_timestamp_to_epoch : Text → Option ℕ
unfolding split to_epoch trim_end
parse_timestamp_to_epoch ts = if ltb (length ts) 19 then some 0 else timestamp_parts (split b'T' ts)
