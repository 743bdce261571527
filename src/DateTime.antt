-- ===== src/DateTime.antt =====
-- Python's naive `datetime.datetime`: the date, and the microseconds since its midnight.
pub mod Laws
use lead_finder.Prelude.{
  ℕ, zero, suc, ◌+◌, ◌-◌, ◌*◌, ◌/◌, ◌%◌, ◌≤◌, ◌<◌, ◌≡◌, refl, Bool, true, false, not, ◌&&◌, ◌||◌,
  ltb, leb, ◌==◌, if◌then◌else◌,
}
use lead_finder.Prelude.Int.{ℤ, pos, negsuc, sub_ℕ}

pub record DateTime : Type 0 where
  pub year : ℕ
  pub month : ℕ
  pub day : ℕ
  pub micros : ℕ

abbrev pub day_micros : ℕ
day_micros = 86400000000

-- `a < b`: the fields are compared in turn.
unfoldable pub before : DateTime → DateTime → Bool
before a b =
    ltb a.year b.year
    || (a.year == b.year
        && (ltb a.month b.month
            || (a.month == b.month
                && (ltb a.day b.day || (a.day == b.day && ltb a.micros b.micros)))))

-- `a <= b`
unfoldable pub at_most : DateTime → DateTime → Bool
unfolding before
at_most a b = not (before b a)

abbrev pub is_leap : ℕ → Bool
is_leap y = y % 4 == 0 && (not (y % 100 == 0) || y % 400 == 0)

-- The days of a year before its month, a leap day aside.
abbrev pub month_start : ℕ → ℕ
month_start zero = 0
month_start (suc zero) = 0
month_start (suc (suc zero)) = 31
month_start (suc (suc (suc zero))) = 59
month_start (suc (suc (suc (suc zero)))) = 90
month_start (suc (suc (suc (suc (suc zero))))) = 120
month_start (suc (suc (suc (suc (suc (suc zero)))))) = 151
month_start (suc (suc (suc (suc (suc (suc (suc zero))))))) = 181
month_start (suc (suc (suc (suc (suc (suc (suc (suc zero)))))))) = 212
month_start (suc (suc (suc (suc (suc (suc (suc (suc (suc zero))))))))) = 243
month_start (suc (suc (suc (suc (suc (suc (suc (suc (suc (suc zero)))))))))) = 273
month_start (suc (suc (suc (suc (suc (suc (suc (suc (suc (suc (suc zero))))))))))) = 304
month_start _ = 334

-- `toordinal()`
unfoldable pub ordinal : DateTime → ℕ
ordinal d =
    (d.year - 1) * 365
    + (d.year - 1) / 4
    - (d.year - 1) / 100
    + (d.year - 1) / 400
    + month_start d.month
    + (if ltb 2 d.month && is_leap d.year then 1 else 0)
    + d.day

-- Microseconds since the calendar's start.
unfoldable pub instant : DateTime → ℕ
unfolding ordinal
instant d = ordinal d * day_micros + d.micros

-- `a - b` in microseconds.
unfoldable pub elapsed : DateTime → DateTime → ℤ
unfolding instant
elapsed a b = sub_ℕ (instant a) (instant b)

-- `delta.days`: rounded down.
unfoldable pub delta_days : ℤ → ℤ
delta_days (pos n) = pos (n / day_micros)
delta_days (negsuc n) = negsuc (n / day_micros)

-- 2024-02-29 to 2024-03-01 is one day.
leap_day :
    elapsed
      (record { year = 2024; month = 3; day = 1; micros = 0 })
      (record { year = 2024; month = 2; day = 29; micros = 0 })
    ≡ pos day_micros
unfolding elapsed
leap_day = refl
