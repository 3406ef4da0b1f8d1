-- ===== src/Platform.antt =====
-- What the program takes from the Python interpreter and does not implement: tables of Unicode and
-- the grammar of ISO 8601. They are a parameter of the definitions that use them.
use tsagent.Prelude.{ℕ, ◌-◌, String, Bool, true, Option, none, some, ◌==◌, leb, if◌then◌else◌, ◌&&◌}

-- A `datetime`: whether it has a time zone, and its instant, in microseconds behind the first
-- instant of the calendar in any zone. Two aware values compare by their instants.
pub record Timestamp : Type 0 where
  pub aware : Bool
  pub instant : ℕ

pub record Platform : Type 0 where
  -- `str.casefold`
  pub casefold : String → String
  -- `datetime.fromisoformat`; `none` is a `ValueError`
  pub from_isoformat : String → Option Timestamp
  -- the value of a decimal digit, for the code points that `\d` matches and `int` reads
  pub decimal : ℕ → Option ℕ

-- A small platform for tests and examples: ASCII digits, two times, no letters to fold.
abbrev pub plain_platform : Platform
plain_platform = record {
  casefold = λ s. s;
  from_isoformat = λ s.
      if s == "2026-01-01T00:00:00+00:00"
      then some (record { aware = true; instant = 1 })
      else if s == "2026-01-02T00:00:00+00:00"
      then some (record { aware = true; instant = 2 })
      else none;
  decimal = λ c. if leb b'0' c && leb c b'9' then some (c - b'0') else none;
}
