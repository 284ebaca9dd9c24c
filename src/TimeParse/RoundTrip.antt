-- ===== src/TimeParse/RoundTrip.antt =====
-- src/agent_keepalive/timeparse.py: a printed duration is read back.
use agent_keepalive.Prelude.{
  All, All-append, Bool-cases, Text, [], arith, false, inl, inr, int_eq, leb, length, ltb, map,
  nat_eq, ok, pair_eq, pos, refl, string_eq, suc, text_eq, true, zero, ℕ, ◌%◌, ◌*◌, ◌++◌, ◌+◌, ◌/◌,
  ◌<◌, ◌==◌, ◌∙◌, ◌∷◌, ◌≡◌, ◌≤◌, ◌⊎◌,
}
use agent_keepalive.TimeParse.{
  format_duration, is_space, normalize, parse_duration, power_within, rounds_up, second,
  skip_spaces, sum_tokens, timedelta, to_lower, unit_seconds, whole_seconds,
}
use agent_keepalive.TimeParse.Decimal.{digits}
use agent_keepalive.TimeParse.Parts.{
  Sums, Sums-nil, Sums-optional, optional, optional-StartsPart, part-digits, parts_text,
}
use agent_keepalive.TimeParse.Tokens.{StartsPart}
use mathlib.Core.List.{append-nil, reverse, reverse-cons, reverse-reverse}
use mathlib.Core.Path.{subst}

-- What `strip` and `lower` leave alone.
abbrev Plain : ℕ → Type 0
Plain c = (is_space c ≡ false) × (to_lower c ≡ c)

digits-Plain : (fuel n : ℕ) (out : Text) → n < fuel → All Plain out → All Plain (digits fuel n out)
unfolding digits is_space to_lower
digits-Plain zero n out h all = absurd (omega arith)
digits-Plain (suc fuel) n out h all = elim (Bool-cases (ltb n 10)) [
  | inl e ↦ rw e (ground arith, all)
  | inr e ↦
      rw e (digits-Plain fuel (n / 10) ((b'0' + n % 10) ∷ out) (ground arith) (ground arith, all))
]

optional-Plain :
    (n unit : ℕ) (rest : Text) → Plain unit → All Plain rest → All Plain (optional n unit ++ rest)
unfolding optional
optional-Plain n unit rest p all = elim (Bool-cases (n == 0)) [
  | inl e ↦ rw e all
  | inr e ↦
      rw (e, part-digits n unit rest) (digits-Plain (suc n) n (unit ∷ rest) (omega arith) (p, all))
]

skip_spaces-Plain : (s : Text) → All Plain s → skip_spaces s ≡ s
unfolding skip_spaces
skip_spaces-Plain [] all = refl
skip_spaces-Plain (c ∷ s) all = rw all.0.0

map-to_lower-Plain : (s : Text) → All Plain s → map to_lower s ≡ s
map-to_lower-Plain [] all = refl
map-to_lower-Plain (c ∷ s) all = cc (map-to_lower-Plain s all.1, all.0.1)

reverse-All : (s : Text) → All Plain s → All Plain (reverse s)
reverse-All [] all = tt
reverse-All (c ∷ s) all =
    rw reverse-cons (All-append Plain (reverse s) (c ∷ []) (reverse-All s all.1) (all.0, tt))

normalize-Plain : (s : Text) → All Plain s → normalize s ≡ s
unfolding normalize
normalize-Plain s all =
    rw (skip_spaces-Plain s all, skip_spaces-Plain (reverse s) (reverse-All s all), reverse-reverse)
      (map-to_lower-Plain s all)

-- The seconds of the whole days, hours, minutes and seconds add up.
split_seconds :
    (n : ℕ)
    → 0
        + n / 86400 * 86400
        + n % 86400 / 3600 * 3600
        + n % 86400 % 3600 / 60 * 60
        + n % 86400 % 3600 % 60 * 1
      ≡ n
split_seconds n = omega arith

split_pos :
    (n : ℕ)
    → 0 < n
    → 0 < n / 86400 + n % 86400 / 3600 + n % 86400 % 3600 / 60 + n % 86400 % 3600 % 60
split_pos n h = omega arith

abbrev four_parts : ℕ → ℕ → ℕ → ℕ → Text
four_parts d h m s =
    optional d b'd' ++ (optional h b'h' ++ (optional m b'm' ++ (optional s b's' ++ [])))

Sums-four_parts :
    (d h m s : ℕ) → Sums (four_parts d h m s) 0 (ok (0 + d * 86400 + h * 3600 + m * 60 + s * 1))
unfolding unit_seconds
Sums-four_parts d h m s = Sums-optional d b'd' 86400 0 _ refl hours (
    Sums-optional h b'h' 3600 _ _ refl minutes
      (Sums-optional m b'm' 60 _ _ refl seconds (Sums-optional s b's' 1 _ [] refl tt (Sums-nil _))))
  where
    seconds : StartsPart (optional s b's' ++ [])
    seconds = optional-StartsPart s b's' [] tt

    minutes : StartsPart (optional m b'm' ++ (optional s b's' ++ []))
    minutes = optional-StartsPart m b'm' _ seconds

    hours : StartsPart (optional h b'h' ++ (optional m b'm' ++ (optional s b's' ++ [])))
    hours = optional-StartsPart h b'h' _ minutes

four_parts-Plain : (d h m s : ℕ) → All Plain (four_parts d h m s)
unfolding is_space to_lower
four_parts-Plain d h m s =
    optional-Plain d b'd' _ (refl, refl)
      (optional-Plain h b'h' _ (refl, refl)
        (optional-Plain m b'm' _ (refl, refl) (optional-Plain s b's' [] (refl, refl) tt)))

-- The text of `t` whole seconds.
abbrev seconds_text : ℕ → Text
seconds_text t =
    four_parts (t / 86400) (t % 86400 / 3600) (t % 86400 % 3600 / 60) (t % 86400 % 3600 % 60)

Sums-seconds_text : (t : ℕ) → Sums (seconds_text t) 0 (ok t)
Sums-seconds_text t =
    subst (λ k. Sums (seconds_text t) 0 (ok k)) (split_seconds t)
      (Sums-four_parts (t / 86400) (t % 86400 / 3600) (t % 86400 % 3600 / 60)
        (t % 86400 % 3600 % 60))

seconds_text-Plain : (t : ℕ) → All Plain (seconds_text t)
seconds_text-Plain t =
    four_parts-Plain (t / 86400) (t % 86400 / 3600) (t % 86400 % 3600 / 60) (t % 86400 % 3600 % 60)

parse_duration-Sums :
    (s : Text) (k : ℕ)
    → All Plain s
    → Sums s 0 (ok k)
    → 0 < k
    → k / 86400 ≤ 999999999
    → parse_duration s ≡ ok (pos (k * second))
unfolding parse_duration timedelta sum_tokens
parse_duration-Sums [] k plain sums h small = absurd (ground (arith, sums.run 0 (omega arith)))
parse_duration-Sums (c ∷ s) k plain sums h small =
    rw (normalize-Plain (c ∷ s) plain, sums.run (length (c ∷ s)) (omega arith)) (ground arith)

format_duration-seconds_text :
    (n : ℕ)
    → 0 < whole_seconds (pos n)
    → format_duration (pos n) ≡ seconds_text (whole_seconds (pos n))
unfolding format_duration
format_duration-seconds_text n h =
    parts_text _ _ _ _ (split_pos (whole_seconds (pos n)) h) ∙ simp append-nil

power_within_le : (fuel w p : ℕ) → p ≤ w + 1 → power_within fuel w p ≤ w + 1
unfolding power_within
power_within_le zero w p h = h
power_within_le (suc fuel) w p h = elim (Bool-cases (leb (p * 2) w)) [
  | inl e ↦ rw e (power_within_le fuel w (p * 2) (ground arith))
  | inr e ↦ rw e h
]

-- No duration of less than 285 years is rounded up.
rounds_up_late : (n : ℕ) → rounds_up n ≡ true → 9007199254 ≤ n / second
unfolding rounds_up
rounds_up_late n h = let most = power_within_le 47 (n / second) 1 (omega arith) in ground arith

-- The seconds that are printed are the whole ones, or one more of a long duration.
abbrev pub Printed : ℕ → ℕ → Type 0
Printed n k = (k ≡ n / second) ⊎ ((k ≡ n / second + 1) × (9007199254 ≤ n / second))

whole_seconds-Printed : (n : ℕ) → Printed n (whole_seconds (pos n))
unfolding whole_seconds
whole_seconds-Printed n = elim (Bool-cases (rounds_up n)) [
  | inl e ↦ rw e (inr (refl, rounds_up_late n e))
  | inr e ↦ rw e (inl refl)
]

Printed-bounds :
    (n k : ℕ)
    → Printed n k
    → 0 < n / second
    → (n / second + 1) / 86400 ≤ 999999999
    → (0 < k) × (k / 86400 ≤ 999999999)
Printed-bounds n k (inl e) h small = rw e (ground arith)
Printed-bounds n k (inr (e, late)) h small = rw e (ground arith)

-- Every duration of a second or more whose whole seconds and one more are less than 1000000000 days
-- is printed to a text that parses to its whole seconds, or, of a duration of 9007199254 seconds or
-- more, possibly to one second more; the microseconds below a second are lost.
pub parse_duration-format_duration :
    (n : ℕ)
    → 0 < n / second
    → (n / second + 1) / 86400 ≤ 999999999
    → (k : ℕ) × (parse_duration (format_duration (pos n)) ≡ ok (pos (k * second))) × Printed n k
parse_duration-format_duration n h small =
    let k = whole_seconds (pos n) in
    let printed = whole_seconds-Printed n in
    let bounds = Printed-bounds n k printed h small in
    (
      k,
      rw (format_duration-seconds_text n bounds.0) (
          parse_duration-Sums (seconds_text k) k (seconds_text-Plain k) (Sums-seconds_text k)
            bounds.0 bounds.1),
      printed,
    )
