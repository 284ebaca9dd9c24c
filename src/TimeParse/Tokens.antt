-- ===== src/TimeParse/Tokens.antt =====
-- src/agent_keepalive/timeparse.py: what the token loop does with the parts of a printed duration.
use agent_keepalive.Prelude.{
  Bool-cases, Text, [], arith, inl, inr, length, ltb, refl, some, suc, true, zero, ℕ, ◌%◌, ◌*◌,
  ◌++◌, ◌+◌, ◌/◌, ◌<◌, ◌∙◌, ◌∷◌, ◌≡◌, ◌≢◌, ◌≤◌,
}
use agent_keepalive.TimeParse.{
  is_digit, is_space, match_number, match_token, read_digits, read_unit, skip_spaces, unit_seconds,
}
use agent_keepalive.TimeParse.Decimal.{digits}

-- A text that a token may be followed by: nothing, or a digit.
abbrev pub StartsPart : Text → Type 0
StartsPart [] = Unit
StartsPart (c ∷ s) = is_digit c ≡ true

skip_spaces_lem : (s : Text) → StartsPart s → skip_spaces s ≡ s
unfolding skip_spaces is_digit is_space
skip_spaces_lem [] h = refl
skip_spaces_lem (c ∷ s) h = ground arith

digits-StartsPart :
    (fuel n : ℕ) (out : Text) → n < fuel → StartsPart out → StartsPart (digits fuel n out)
unfolding digits is_digit
digits-StartsPart zero n out lt h = h
digits-StartsPart (suc fuel) n out lt h = elim (Bool-cases (ltb n 10)) [
  | inl small ↦ rw small (ground arith)
  | inr large ↦
      rw large
        (digits-StartsPart fuel (n / 10) ((b'0' + n % 10) ∷ out) (ground arith) (ground arith))
]

pub digits-append :
    (fuel n : ℕ) (out rest : Text) → digits fuel n out ++ rest ≡ digits fuel n (out ++ rest)
unfolding digits
digits-append zero n out rest = refl
digits-append (suc fuel) n out rest =
    ground (arith, digits-append fuel (n / 10) ((b'0' + n % 10) ∷ out) rest)

-- Reading the printed digits gives the number back.
read_digits-digits :
    (fuel n : ℕ) (out : Text) → n < fuel → read_digits (digits fuel n out) 0 ≡ read_digits out n
unfolding digits read_digits is_digit
read_digits-digits zero n out h = absurd (omega arith)
read_digits-digits (suc fuel) n out h = elim (Bool-cases (ltb n 10)) [
  | inl small ↦ rw small (ground arith)
  | inr large ↦
      rw large
        (read_digits-digits fuel (n / 10) ((b'0' + n % 10) ∷ out) (ground arith) ∙ ground arith)
]

-- A printed number starts with a digit, whatever follows it.
pub decimal-StartsPart : (n : ℕ) (out : Text) → StartsPart (digits (suc n) n out)
unfolding digits is_digit
decimal-StartsPart n out = elim (Bool-cases (ltb n 10)) [
  | inl small ↦ rw small (ground arith)
  | inr large ↦
      rw large (digits-StartsPart n (n / 10) ((b'0' + n % 10) ∷ out) (ground arith) (ground arith))
]

pub digits-ne-nil : (fuel n : ℕ) (out : Text) → out ≢ [] → digits fuel n out ≢ []
unfolding digits
digits-ne-nil zero n out h = h
digits-ne-nil (suc fuel) n out h =
    ground (arith, digits-ne-nil fuel (n / 10) ((b'0' + n % 10) ∷ out))

pub length-digits : (fuel n : ℕ) (out : Text) → length out ≤ length (digits fuel n out)
unfolding digits
length-digits zero n out = omega arith
length-digits (suc fuel) n out = ground (arith, length-digits fuel (n / 10) ((b'0' + n % 10) ∷ out))

-- A letter of `[smhd]`, and the seconds that it stands for.
abbrev pub IsUnit : ℕ → ℕ → Type 0
IsUnit unit seconds = unit_seconds unit ≡ some seconds

read_unit_lem :
    (unit seconds : ℕ) (rest : Text)
    → IsUnit unit seconds
    → StartsPart rest
    → read_unit (unit ∷ rest) ≡ (seconds, rest)
unfolding read_unit
read_unit_lem unit seconds rest u h = ground (arith, skip_spaces_lem rest h)

read_digits_unit :
    (unit seconds n : ℕ) (rest : Text)
    → IsUnit unit seconds
    → read_digits (unit ∷ rest) n ≡ (n, unit ∷ rest)
unfolding read_digits unit_seconds is_digit
read_digits_unit unit seconds n rest u = ground arith

skip_spaces_unit :
    (unit seconds : ℕ) (rest : Text) → IsUnit unit seconds → skip_spaces (unit ∷ rest) ≡ unit ∷ rest
unfolding skip_spaces unit_seconds is_space
skip_spaces_unit unit seconds rest u = ground arith

match_number_lem : (s : Text) → s ≢ [] → StartsPart s → match_number s ≡ some (read_digits s 0)
unfolding match_number
match_number_lem [] n h = absurd (n refl)
match_number_lem (c ∷ s) n h = rw h

-- One round of the loop reads one printed part.
pub match_token-digits :
    (n unit seconds : ℕ) (rest : Text)
    → IsUnit unit seconds
    → StartsPart rest
    → match_token (digits (suc n) n (unit ∷ rest)) ≡ some (n * seconds, rest)
unfolding match_token
match_token-digits n unit seconds rest u h = cc (
  skip_spaces_lem _ (decimal-StartsPart n (unit ∷ rest)),
  match_number_lem _ (digits-ne-nil (suc n) n (unit ∷ rest) (cc))
      (decimal-StartsPart n (unit ∷ rest)),
  read_digits-digits (suc n) n (unit ∷ rest) (omega arith),
  read_digits_unit unit seconds n rest u,
  skip_spaces_unit unit seconds rest u,
  read_unit_lem unit seconds rest u h,
)
