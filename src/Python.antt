-- ===== src/Python.antt =====
-- The Python standard library, as far as the program uses it and a model must be told its answers:
-- reading an integer from a text, `str` of a value that is no text, and the ISO form of an aware
-- `datetime`.
use agent_keepalive.Json.{Value, arr, bool, cons, end, field, float, int, nil, null, obj, str}
use agent_keepalive.Prelude.{
  Bool, Option, Result, String, err, false, int_eq, is_zero, nat_eq, negsuc, none, not, ok, pair_eq,
  pos, some, string_eq, sub_ℕ, text_eq, true, type_error, value_error, ℤ, ◌+◌, ◌/◌, ◌==◌,
}
use agent_keepalive.TimeParse.{Instant}

pub record Python : Type 0 where
  pub parse_int : String → Option ℤ
  pub repr : Value → String
  pub isoformat : Instant → String
  pub from_isoformat : String → Option Instant

-- Towards zero, from millionths.
unfoldable pub truncate : ℤ → ℤ
truncate (pos n) = pos (n / 1000000)
truncate (negsuc n) = sub_ℕ 0 ((n + 1) / 1000000)

-- bool(value)
unfoldable pub truthy : Value → Bool
truthy null = false
truthy (bool b) = b
truthy (int n) = not (is_zero n)
truthy (float x) = not (is_zero x)
truthy (str s) = not (s == "")
truthy (arr nil) = false
truthy (arr (cons _ _)) = true
truthy (obj end) = false
truthy (obj (field _ _ _)) = true

module _ (py : Python) where
  -- int(value)
  unfoldable pub int_of : Value → Result ℤ
  unfolding truncate
  int_of (int n) = ok n
  int_of (bool true) = ok (pos 1)
  int_of (bool false) = ok (pos 0)
  int_of (float x) = ok (truncate x)
  int_of (str s) = elim (py.parse_int s) [
    | none ↦ err (value_error "invalid literal for int()")
    | some n ↦ ok n
  ]
  int_of _ = err (type_error "int() argument must be a string or a number")

  -- str(value)
  unfoldable pub str_of : Value → String
  str_of (str s) = s
  str_of v = py.repr v

  -- timeparse.parse_timestamp
  unfoldable pub parse_timestamp : Option String → Result (Option Instant)
  parse_timestamp none = ok none
  parse_timestamp (some value) = elim (py.from_isoformat value) [
    | none ↦ err (value_error "Invalid isoformat string")
    | some t ↦ ok (some t)
  ]

  -- timeparse.isoformat_or_none
  unfoldable pub isoformat_or_none : Option Instant → Option String
  isoformat_or_none none = none
  isoformat_or_none (some t) = some (py.isoformat t)
