-- ===== src/Ws/Received.antt =====
-- A frame as RFC 6455 has it, and the stages of reading one (agent_keepalive/ws.py, _recv_frame).
use agent_keepalive.Prelude.{
  All, Bool, Bytes, IsByte, Option, [], ap, arith, code, false, length, none, ok, refl, some, suc,
  true, xor_twice, zero, ℕ, ◌%◌, ◌++◌, ◌∷◌, ◌≡◌,
}
use agent_keepalive.Ws.{apply_mask, mask_byte, mask_from}
use agent_keepalive.Ws.Packed.{extended_length, first_byte, second_byte, short_length}
use mathlib.Core.Path.{ap₂}

unfoldable pub is_masked : Option Bytes → Bool
is_masked none = false
is_masked (some key) = true

unfoldable pub key_bytes : Option Bytes → Bytes
key_bytes none = []
key_bytes (some key) = key

unfoldable pub body : Option Bytes → Bytes → Bytes
body none bytes = bytes
body (some key) bytes = mask_from key 0 bytes

-- RFC 6455, 5.2: flags and opcode, length, masking key, payload.
unfoldable pub wire : Bool → ℕ → Option Bytes → Bytes → Bytes
wire fin code key bytes =
    first_byte fin code
      ∷ second_byte (is_masked key) (short_length (length bytes))
      ∷ extended_length (length bytes)
    ++ key_bytes key
    ++ body key bytes

-- A masking key has four bytes.
unfoldable pub IsKey : Option Bytes → Type 0
IsKey none = Unit
IsKey (some key) = (length key ≡ 4) × All IsByte key

mask_byte-IsByte : (key : Bytes) (n : ℕ) → All IsByte key → IsByte (mask_byte key n)
unfolding mask_byte
mask_byte-IsByte [] n h = omega arith
mask_byte-IsByte (k ∷ key) zero h = h.0
mask_byte-IsByte (k ∷ key) (suc n) h = mask_byte-IsByte key n h.1

length-mask_from :
    (key : Bytes) (n : ℕ) (bytes : Bytes) → length (mask_from key n bytes) ≡ length bytes
unfolding mask_from
length-mask_from key n [] = refl
length-mask_from key n (b ∷ bytes) = ap suc (length-mask_from key (suc n) bytes)

pub mask_from-mask_from :
    (key : Bytes) (n : ℕ) (bytes : Bytes)
    → All IsByte key
    → All IsByte bytes
    → mask_from key n (mask_from key n bytes) ≡ bytes
unfolding mask_from
mask_from-mask_from key n [] hk hb = refl
mask_from-mask_from key n (b ∷ bytes) hk hb =
    ap₂ (λ x xs. x ∷ xs)
      (xor_twice b (mask_byte key (n % length key)) hb.0 (mask_byte-IsByte key (n % length key) hk))
      (mask_from-mask_from key (suc n) bytes hk hb.1)

pub apply_mask_lem :
    (key bytes : Bytes) → length key ≡ 4 → apply_mask key bytes ≡ ok (mask_from key 0 bytes)
unfolding apply_mask mask_from
apply_mask_lem key [] h = refl
apply_mask_lem [] (b ∷ bytes) h = absurd (omega arith)
apply_mask_lem (k ∷ key) (b ∷ bytes) h = refl

pub length-body : (key : Option Bytes) (bytes : Bytes) → length (body key bytes) ≡ length bytes
unfolding body
length-body none bytes = refl
length-body (some key) bytes = length-mask_from key 0 bytes
