-- ===== src/Claude/Ids/Shape.antt =====
-- providers/claude.py, short_session_id: what a short session id looks like.
use agent_keepalive.Claude.Ids.{first_chars, is_short, is_uuid, short_session_id, skip_hex}
use agent_keepalive.Prelude.{
  Bool-cases, String, Text, [], arith, codes, false, inl, inr, ok, refl, some, suc, true, zero, ℕ,
  ◌≡◌,
}

skip_hex-first_chars :
    (n : ℕ) (s : String) (rest : Text)
    → skip_hex n (codes s) ≡ some rest
    → skip_hex n (codes (first_chars n s)) ≡ some []
unfolding skip_hex first_chars
skip_hex-first_chars zero s rest h = refl
skip_hex-first_chars (suc n) String.[] rest h = cc
skip_hex-first_chars (suc n) (String.◌∷◌ c s) rest h = ground (arith, skip_hex-first_chars n s rest)

is_uuid-skip_hex : (s : Text) → is_uuid s ≡ true → (rest : Text) × (skip_hex 8 s ≡ some rest)
unfolding is_uuid
is_uuid-skip_hex s h = ground arith

-- Whatever is accepted, a UUID or a short id, comes back as exactly eight hexadecimal digits.
pub short_session_id-is_short :
    (value short : String) → short_session_id value ≡ ok short → is_short (codes short) ≡ true
unfolding short_session_id is_short
short_session_id-is_short value short h = elim (Bool-cases (is_uuid (codes value))) [
  | inl u ↦
      let (rest, e) = is_uuid-skip_hex (codes value) u in
      ground (arith, skip_hex-first_chars 8 value rest e)
  | inr u ↦ ground arith
]

not-is_uuid-is_short : (s : Text) → is_short s ≡ true → is_uuid s ≡ false
unfolding is_uuid is_short
not-is_uuid-is_short s h = ground arith

-- A short id stands for itself.
short_session_id-short :
    (short : String) → is_short (codes short) ≡ true → short_session_id short ≡ ok short
unfolding short_session_id
short_session_id-short short h = rw (not-is_uuid-is_short (codes short) h, h)
