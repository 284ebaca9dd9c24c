-- ===== src/Claude/Ids.antt =====
-- Session ids of providers/claude.py: a full UUID, or the eight characters that it starts with.
pub mod Shape
use agent_keepalive.Prelude.{
  Bool, Option, Result, String, Text, [], codes, err, false, if◌then◌else◌, int_eq, leb, length,
  nat_eq, none, ok, pair_eq, some, string_eq, suc, text_eq, true, value_error, zero, ℕ, ◌&&◌, ◌==◌,
  ◌||◌, ◌∷◌,
}

unfoldable pub is_hex : ℕ → Bool
is_hex c = (leb b'0' c && leb c b'9') || (leb b'a' c && leb c b'f') || (leb b'A' c && leb c b'F')

-- `[0-9a-fA-F]{n}`: what follows, if the text starts so.
unfoldable pub skip_hex : ℕ → Text → Option Text
skip_hex zero s = some s
skip_hex (suc n) [] = none
skip_hex (suc n) (c ∷ s) = let rest = skip_hex n s in if is_hex c then rest else none

unfoldable pub skip_dash : Text → Option Text
skip_dash [] = none
skip_dash (c ∷ s) = if c == b'-' then some s else none

-- `$` matches at the end, and before a newline at the end.
unfoldable pub at_end : Text → Bool
at_end [] = true
at_end (c ∷ []) = c == 10
at_end (c ∷ d ∷ s) = false

infixl 5 ◌then_read◌
abbrev ◌then_read◌ : Option Text → (Text → Option Text) → Option Text
none then_read f = none
some s then_read f = f s

-- UUID_RE.match(value)
unfoldable pub is_uuid : Text → Bool
unfolding skip_dash at_end
is_uuid value =
    elim (skip_hex 8 value
      then_read skip_dash
      then_read skip_hex 4
      then_read skip_dash
      then_read skip_hex 4
      then_read skip_dash
      then_read skip_hex 4
      then_read skip_dash
      then_read skip_hex 12) [ none ↦ false | some rest ↦ at_end rest ]

-- value[:n]
unfoldable pub first_chars : ℕ → String → String
first_chars zero s = ""
first_chars (suc n) String.[] = ""
first_chars (suc n) (String.◌∷◌ c s) = String.◌∷◌ c (first_chars n s)

-- re.fullmatch(r"[0-9a-fA-F]{8}", value)
unfoldable pub is_short : Text → Bool
is_short value = elim (skip_hex 8 value) [ none ↦ false | some rest ↦ length rest == 0 ]

unfoldable pub short_session_id : String → Result String
short_session_id value =
    if is_uuid (codes value)
    then ok (first_chars 8 value)
    else if is_short (codes value)
    then ok value
    else err (value_error "Claude session must be a full UUID or 8-character short id")
