-- ===== src/Time.antt =====
-- Go's time package, as far as the workflow uses it. A time or duration is a number of
-- nanoseconds. RFC 3339 text is written and read by the standard library, a parameter here.
use chainplane.Prelude.{ℕ, ◌*◌, ◌%◌, ◌^◌, ◌≡◌, String, Option, none, some, ltb, if◌then◌else◌}

abbrev pub second : ℕ
second = 1000000000

abbrev pub minute : ℕ
minute = 60 * second

-- t.UTC().Format(time.RFC3339) and time.Parse(time.RFC3339, s), on whole seconds since the epoch.
pub record TimeFormat : Type 0 where
  pub format : ℕ → String
  pub parse : String → Option ℕ
  pub parse-format : (s : ℕ) → parse (format s) ≡ some s
  pub parse-empty : parse "" ≡ none

-- A duration of 64 bits with a sign, of which a negative one counts as 0.
abbrev pub positive_duration : ℕ → ℕ
positive_duration d = let wrapped = d % 2 ^ 64 in if ltb wrapped (2 ^ 63) then wrapped else 0
