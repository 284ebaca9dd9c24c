-- ===== src/TimeParse/Fuel.antt =====
-- src/agent_keepalive/timeparse.py: the token loop ends, and with what.
use agent_keepalive.Prelude.{
  Bool-cases, Option-cases, Result, String, Text, [], arith, err, inl, inr, int_eq, length, ltb,
  nat_eq, ok, overflow_error, pair_eq, pos, refl, some, string_eq, suc, text_eq, value_error, zero,
  ℕ, ◌*◌, ◌+◌, ◌-◌, ◌/◌, ◌<◌, ◌==◌, ◌∷◌, ◌≡◌, ◌≤◌,
}
use agent_keepalive.TimeParse.{
  Timedelta, match_number, match_token, normalize, parse_duration, read_digits, read_unit, second,
  skip_spaces, sum_tokens, timedelta,
}

length-skip_spaces : (s : Text) → length (skip_spaces s) ≤ length s
unfolding skip_spaces
length-skip_spaces [] = omega arith
length-skip_spaces (c ∷ s) = ground (arith, length-skip_spaces s)

length-read_digits : (s : Text) (n : ℕ) → length (read_digits s n).1 ≤ length s
unfolding read_digits
length-read_digits [] n = omega arith
length-read_digits (c ∷ s) n = ground (arith, length-read_digits s (n * 10 + (c - b'0')))

length-read_unit : (s : Text) → length (read_unit s).1 ≤ length s
unfolding read_unit
length-read_unit [] = omega arith
length-read_unit (c ∷ s) = ground (arith, length-skip_spaces s, length-skip_spaces (c ∷ s))

length-match_number :
    (s : Text) (amount : ℕ) (rest : Text)
    → match_number s ≡ some (amount, rest)
    → length rest < length s
unfolding match_number read_digits
length-match_number [] amount rest h = cc
length-match_number (c ∷ s) amount rest h =
    ground (arith, length-read_digits s (0 * 10 + (c - b'0')))

-- A token takes at least one character.
length-match_token :
    (s : Text) (seconds : ℕ) (rest : Text)
    → match_token s ≡ some (seconds, rest)
    → length rest < length s
unfolding match_token
length-match_token s seconds rest h = elim (Option-cases (match_number (skip_spaces s))) [
  | inl e ↦ absurd (ground arith)
  | inr ((amount, behind), e) ↦ ground (
    arith,
    length-skip_spaces s,
    length-match_number (skip_spaces s) amount behind e,
    length-skip_spaces behind,
    length-read_unit (skip_spaces behind),
  )
]

-- The loop adds up, or refuses the text; it does not run out of fuel.
pub data Ended (r : Result ℕ) : Type 0 where
  summed : (total : ℕ) → r ≡ ok total → Ended r
  refused : (text : String) → r ≡ err (value_error text) → Ended r

sum_tokens-Ended :
    (fuel : ℕ) (s : Text) (total : ℕ) → length s ≤ fuel → Ended (sum_tokens fuel s total)
unfolding sum_tokens
sum_tokens-Ended fuel [] total h = summed total refl
sum_tokens-Ended zero (c ∷ s) total h = absurd (omega arith)
sum_tokens-Ended (suc fuel) (c ∷ s) total h = elim (Option-cases (match_token (c ∷ s))) [
  | inl e ↦ refused "invalid duration" (rw (e, sum_tokens) refl)
  | inr ((seconds, rest), e) ↦
      let shorter = length-match_token (c ∷ s) seconds rest e in
      rw (e, sum_tokens) (sum_tokens-Ended fuel rest (total + seconds) (omega arith))
]

-- What `parse_duration` may answer: a positive whole number of seconds, or one of two exceptions.
pub data Answered (r : Result Timedelta) : Type 0 where
  in_seconds : (n : ℕ) → 0 < n → n / 86400 ≤ 999999999 → r ≡ ok (pos (n * second)) → Answered r
  not_valid : (text : String) → r ≡ err (value_error text) → Answered r
  too_long : r ≡ err overflow_error → Answered r

timedelta-Answered : (n : ℕ) → 0 < n → Answered (timedelta n)
unfolding timedelta
timedelta-Answered n h = elim (Bool-cases (ltb 999999999 (n / 86400))) [
  | inl e ↦ too_long (rw e refl)
  | inr e ↦ in_seconds n h (ground arith) (rw e refl)
]

-- Every text is answered: it parses to a positive whole number of seconds of at most 999999999
-- days, or it is refused with a ValueError or an OverflowError.
pub parse_duration-Answered : (s : Text) → Answered (parse_duration s)
unfolding parse_duration
parse_duration-Answered s = elim (Bool-cases (length (normalize s) == 0)) [
  | inl e ↦ not_valid "duration cannot be empty" (rw e refl)
  | inr e ↦ elim (sum_tokens-Ended (length (normalize s)) (normalize s) 0 (omega arith)) [
    | refused text r ↦ not_valid text (rw (e, r) refl)
    | summed total r ↦ elim (Bool-cases (total == 0)) [
      | inl z ↦ not_valid "duration must be greater than zero" (rw (e, r, z) refl)
      | inr z ↦ rw (e, r, z) (timedelta-Answered total (ground arith))
    ]
  ]
]
