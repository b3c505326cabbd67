-- ===== src/Time.antt =====
-- What the program uses of Go's package time. An instant is its distance in nanoseconds from the
-- zero time (1 January of year 1, UTC); `Truncate` counts from there too.
pub mod Gregorian
use lumi_panel.Base.{ℕ, ◌-◌, ◌*◌, ◌%◌, Bool, ltb, ◌==◌}

abbrev pub Instant : Type 0
Instant = ℕ

-- `t.Before(u)`, `t.After(u)` and `t.Equal(u)`.
abbrev pub before : Instant → Instant → Bool
before t u = ltb t u

abbrev pub after : Instant → Instant → Bool
after t u = ltb u t

abbrev pub equal : Instant → Instant → Bool
equal t u = t == u

abbrev pub second : ℕ
second = 1_000_000_000

abbrev pub minute : ℕ
minute = 60 * second

-- `t.Truncate(d)` at a positive duration.
abbrev pub truncate : Instant → ℕ → Instant
truncate t d = t - t % d

abbrev pub day : ℕ
day = 1440 * minute

-- What `Year`, `Month` and `Day` give of a time in a location.
pub record CivilDate : Type 0 where
  pub year : ℕ
  pub month : ℕ
  pub day : ℕ
