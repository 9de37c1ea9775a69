-- ===== src/Entity/Time.antt =====
-- The parts of Go's `time` that the program computes with. A `Time` counts nanoseconds since
-- 1 January of the year -1, before any instant that an RFC 3339 text can name; Go's zero time is
-- 731 days later. A `Duration` between instants is a number of nanoseconds.
use kaftar.Prelude.{ℕ, ◌+◌, ◌-◌, ◌*◌, ◌%◌, Bool, ◌||◌, ltb, leb, Option, none, some, false}

abbrev pub Time : Type 0
Time = ℕ

abbrev pub microsecond : ℕ
microsecond = 1000

abbrev pub second : ℕ
second = 1000000000

abbrev pub minute : ℕ
minute = 60 * second

abbrev pub day : ℕ
day = 24 * 60 * minute

abbrev pub time_zero : Time
time_zero = 731 * day

-- The first instant of the year 10000: the years 1 to 9999 have 3652059 days.
abbrev pub year_10000 : Time
year_10000 = time_zero + 3652059 * day

-- value.Year() < 1 || value.Year() > 9999
abbrev pub year_out_of_range : Time → Bool
year_out_of_range t = ltb t time_zero || leb year_10000 t

-- now.Before(t)
abbrev pub before : Time → Time → Bool
before now t = ltb now t

-- t.Truncate(time.Microsecond)
abbrev pub truncate_microsecond : Time → Time
truncate_microsecond t = t - t % microsecond

-- deadline != nil && !now.Before(*deadline)
abbrev pub reached : Option Time → Time → Bool
reached none now = false
reached (some t) now = leb t now
