-- ===== src/TimeParse.antt =====
-- src/agent_keepalive/timeparse.py: durations are read and printed. A text is the list of its code
-- points, and is ASCII: the Unicode digits and spaces that `\d` and `\s` also accept are left out, and
-- so is the ValueError of int() for more than 4300 digits.
-- A `timedelta` is a whole number of microseconds, and an aware `datetime` the number of them
-- since the first instant that Python's `datetime` has, the start of year 1.
pub mod Decimal
pub mod Tokens
pub mod Parts
pub mod RoundTrip
pub mod Fuel
pub mod Tests
use agent_keepalive.Prelude.{
  Bool, List, Option, Result, Text, [], codes, err, if◌then◌else◌, int_eq, leb, length, ltb, map,
  nat_eq, negsuc, none, not, ok, overflow_error, pair_eq, pos, runtime_error, some, string_eq,
  sub_ℕ, suc, text_eq, value_error, zero, ℕ, ℤ, ◌%◌, ◌&&◌, ◌*◌, ◌++◌, ◌+◌, ◌-◌, ◌/◌, ◌==◌, ◌>>=◌,
  ◌^◌, ◌||◌, ◌∷◌,
}
use Decimal.{decimal}
use mathlib.Core.List.{flatten, reverse}

abbrev pub Timedelta : Type 0
Timedelta = ℤ

abbrev pub Instant : Type 0
Instant = ℕ

abbrev pub second : ℕ
second = 1000000

-- The instant 1970-01-01, and the first one past year 9999.
abbrev pub epoch : Instant
epoch = 62135596800 * second

abbrev pub instants_end : Instant
instants_end = 315537897600 * second

-- datetime.fromtimestamp, of a number of microseconds: years outside 1 to 9999 are refused.
unfoldable pub from_timestamp : ℤ → Result Instant
from_timestamp (pos n) =
    if ltb (epoch + n) instants_end
    then ok (epoch + n)
    else err (value_error "year is out of range")
from_timestamp (negsuc n) =
    if ltb n epoch then ok (epoch - n - 1) else err (value_error "year is out of range")

-- timedelta(seconds=n): more than 999999999 days are refused.
unfoldable pub timedelta : ℕ → Result Timedelta
timedelta n = if ltb 999999999 (n / 86400) then err overflow_error else ok (pos (n * second))

unfoldable pub is_space : ℕ → Bool
is_space c = (leb 9 c && leb c 13) || (leb 28 c && leb c 32)

unfoldable pub is_digit : ℕ → Bool
is_digit c = leb b'0' c && leb c b'9'

-- `\s*`
unfoldable pub skip_spaces : Text → Text
skip_spaces [] = []
skip_spaces (c ∷ s) = let rest = skip_spaces s in if is_space c then rest else c ∷ s

-- `int(match.group(1))` and the text behind the digits, with `n` read so far.
unfoldable pub read_digits : Text → ℕ → ℕ × Text
read_digits [] n = (n, [])
read_digits (c ∷ s) n =
    let rest = read_digits s (n * 10 + (c - b'0')) in if is_digit c then rest else (n, c ∷ s)

-- _UNIT_SECONDS; `none` for a character outside `[smhd]`.
unfoldable pub unit_seconds : ℕ → Option ℕ
unit_seconds c =
    if c == b's'
    then some 1
    else if c == b'm'
    then some 60
    else if c == b'h'
    then some 3600
    else if c == b'd'
    then some 86400
    else none

-- `([smhd]?)\s*`: the seconds of the unit, and what follows.
unfoldable pub read_unit : Text → ℕ × Text
read_unit [] = (1, [])
read_unit (c ∷ s) = elim (unit_seconds c) [
  | some seconds ↦ (seconds, skip_spaces s)
  | none ↦ (1, skip_spaces (c ∷ s))
]

-- The digits of a token, once its leading spaces are gone.
unfoldable pub match_number : Text → Option (ℕ × Text)
match_number [] = none
match_number (c ∷ s) = if is_digit c then some (read_digits (c ∷ s) 0) else none

-- _TOKEN_RE.match(text, position): the seconds that the token stands for, and the rest of the text.
unfoldable pub match_token : Text → Option (ℕ × Text)
match_token s = elim (match_number (skip_spaces s)) [
  | none ↦ none
  | some (amount, rest) ↦
      let (seconds, rest') = read_unit (skip_spaces rest) in some (amount * seconds, rest')
]

-- The `while` loop: one token a round. The fuel is the length of the text.
unfoldable pub sum_tokens : ℕ → Text → ℕ → Result ℕ
sum_tokens fuel [] total = ok total
sum_tokens zero (c ∷ s) total = err (runtime_error "out of fuel")
sum_tokens (suc fuel) (c ∷ s) total = elim (match_token (c ∷ s)) [
  | none ↦ err (value_error "invalid duration")
  | some (seconds, rest) ↦ sum_tokens fuel rest (total + seconds)
]

unfoldable pub to_lower : ℕ → ℕ
to_lower c = if leb b'A' c && leb c b'Z' then c + 32 else c

-- value.strip().lower()
unfoldable pub normalize : Text → Text
unfolding skip_spaces to_lower
normalize s = map to_lower (reverse (skip_spaces (reverse (skip_spaces s))))

unfoldable pub parse_duration : Text → Result Timedelta
parse_duration value =
    let text = normalize value in
    if length text == 0 then err (value_error "duration cannot be empty") else do
      total ← sum_tokens (length text) text 0
      if total == 0 then err (value_error "duration must be greater than zero") else timedelta total

-- The greatest power of two, up to 2 ^ `fuel`, that is at most `w`, from `p` on.
unfoldable pub power_within : (fuel w p : ℕ) → ℕ
power_within zero w p = p
power_within (suc fuel) w p =
    let rest = power_within fuel w (p * 2) in if leb (p * 2) w then rest else p

-- `total_seconds` divides to the nearest double, of 53 bits. Whether that is the next whole second:
-- what lacks to it is at most half the distance of two doubles. In the range of a `timedelta` the
-- seconds have 47 bits at most, so a whole second is the even one of two doubles and wins a tie.
unfoldable pub rounds_up : (n : ℕ) → Bool
rounds_up n =
    leb (2 ^ 53 * ((n / second + 1) * second - n)) (second * power_within 47 (n / second) 1)

-- int(value.total_seconds()), and 0 if that is negative.
unfoldable pub whole_seconds : Timedelta → ℕ
whole_seconds (pos n) = if rounds_up n then n / second + 1 else n / second
whole_seconds (negsuc n) = 0

-- f"{n}{unit}"
unfoldable pub part : ℕ → ℕ → Text
part n unit = decimal n ++ unit ∷ []

-- if n: parts.append(f"{n}{unit}")
unfoldable pub append_part : List Text → ℕ → ℕ → List Text
append_part parts n unit = if n == 0 then parts else parts ++ part n unit ∷ []

unfoldable pub format_duration : Timedelta → Text
format_duration value =
    let total = whole_seconds value in
    let days = total / 86400 in
    let hours = total % 86400 / 3600 in
    let minutes = total % 86400 % 3600 / 60 in
    let seconds = total % 86400 % 3600 % 60 in
    let parts = append_part (append_part (append_part [] days b'd') hours b'h') minutes b'm' in
    flatten
      (if not (seconds == 0) || length parts == 0 then parts ++ part seconds b's' ∷ [] else parts)

unfoldable pub format_relative_time : Option Instant → Instant → Text
format_relative_time none now = codes "-"
format_relative_time (some moment) now = format_duration (sub_ℕ now moment) ++ codes " ago"
