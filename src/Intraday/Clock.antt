-- ===== src/Intraday/Clock.antt =====
-- `datetime.time` and `ExitManager._parse_time`: the time of day of a moment, in microseconds, and the
-- clock times of the settings. Moments are microseconds from the epoch, in UTC.
use Prim.Native.Char.{code}
use Prim.Native.Nat.{◌*◌ as times, ◌+◌ as plus, ◌%◌}
use trading_ai_alpha_agent.Prelude.{String, ℕ, ◌&&◌, Option, none, some, ◌==◌, ltb, if◌then◌else◌}
use trading_ai_alpha_agent.Prelude.Int.{ℤ, pos, negsuc}
use trading_ai_alpha_agent.Prelude.Result.{Result, ok, err, ◌>>=◌, value_error}

-- `datetime`: the moment, and the offset of its zone from UTC at that moment. An offset is in
-- microseconds to the east and below a day; one to the west has a day added.
pub record DateTime : Type 0 where
  pub moment : ℕ
  pub utc_offset : ℕ

-- `value.time()`: the wall clock in the zone that the value carries
abbrev pub time_of_day : DateTime → ℕ
time_of_day value = plus value.moment value.utc_offset % 86_400_000_000

-- `value.split(":", 1)`, with nothing after it where there is no colon
unfoldable pub split_colon : String → String × Option String
split_colon String.[] = ("", none)
split_colon (String.◌∷◌ c s) =
    let (head, tail) = split_colon s in
    if code c == 58 then ("", some s) else (String.◌∷◌ c head, tail)

-- `int(text)`, of Python: a parameter of the model
abbrev pub ReadInt : Type 0
ReadInt = String → Option ℤ

abbrev read : ReadInt → String → Result ℤ
read int_of text = elim (int_of text) [
  | none ↦ err (value_error "invalid literal for int() with base 10")
  | some n ↦ ok n
]

-- `time(hour, minute)`
abbrev clock_time : ℤ → ℤ → Result ℕ
clock_time (pos hour) (pos minute) =
    if ltb hour 24 && ltb minute 60
    then ok (times (plus (times hour 60) minute) 60_000_000)
    else err (value_error "hour or minute out of range")
clock_time (negsuc hour) minute = err (value_error "hour must be in 0..23")
clock_time (pos hour) (negsuc minute) = err (value_error "minute must be in 0..59")

abbrev parse_parts : ReadInt → String × Option String → Result ℕ
parse_parts int_of (head, none) =
    read int_of head >>= λ h. err (value_error "not enough values to unpack (expected 2, got 1)")
parse_parts int_of (head, some tail) = do
  hour ← read int_of head
  minute ← read int_of tail
  clock_time hour minute

-- `_parse_time`
unfoldable pub parse_time : ReadInt → String → Result ℕ
unfolding split_colon
parse_time int_of value = parse_parts int_of (split_colon value)
