-- ===== src/Ws/Packed.antt =====
-- The numbers and flags of a frame's header, written and read (agent_keepalive/ws.py: struct.pack
-- and struct.unpack, the masks 0x80, 0x0F and 0x7F).
use Prim.Native.Nat.{bit_and, bit_or}
use agent_keepalive.Prelude.{
  Bool, Bytes, [], all_below, all_below_sound, arith, code, false, if◌then◌else◌, int_eq, length,
  ltb, nat_eq, not, pair_eq, refl, string_eq, suc, text_eq, true, zero, ℕ, ◌%◌, ◌&&◌, ◌*◌, ◌++◌,
  ◌+◌, ◌/◌, ◌<◌, ◌==◌, ◌^◌, ◌∙◌, ◌∷◌, ◌≡◌,
}
use agent_keepalive.Ws.{pack, unpack, unpack_from}
use agent_keepalive.Ws.Exact.{length-append}
use agent_keepalive.Ws.Frames.{high_bit}
use native.Mathlib.Nat.{pow-suc}

unpack_from-snoc :
    (n b : ℕ) (bytes : Bytes) → unpack_from n (bytes ++ b ∷ []) ≡ unpack_from n bytes * 256 + b
unfolding unpack_from
unpack_from-snoc n b [] = refl
unpack_from-snoc n b (c ∷ bytes) = unpack_from-snoc (n * 256 + c) b bytes

pub length-pack : (size n : ℕ) → length (pack size n) ≡ size
unfolding pack
length-pack zero n = refl
length-pack (suc size) n =
    let ih = length-pack size (n / 256) in
    let whole = length-append (pack size (n / 256)) (n % 256 ∷ []) in omega arith

-- A number that fits in so many bytes is read back from them.
pub unpack-pack : (size n : ℕ) → n < 256 ^ size → unpack (pack size n) ≡ n
unfolding unpack pack unpack_from
unpack-pack zero n h = omega arith
unpack-pack (suc size) n h =
    let power = pow-suc 256 size in
    let small : n / 256 < 256 ^ size = omega arith in
    let ih = unpack-pack size (n / 256) small in
    let last = unpack_from-snoc 0 (n % 256) (pack size (n / 256)) in last ∙ omega arith

-- RFC 6455, 5.2: the first byte is the FIN flag and the opcode.
unfoldable pub first_byte : Bool → ℕ → ℕ
first_byte fin code = if fin then 128 + code else code

-- The second is the MASK flag and the short length: 126 and 127 announce two and eight bytes more.
unfoldable pub second_byte : Bool → ℕ → ℕ
second_byte masked short = if masked then 128 + short else short

unfoldable pub short_length : ℕ → ℕ
short_length n = if ltb n 126 then n else (if ltb n 65536 then 126 else 127)

unfoldable pub extended_length : ℕ → Bytes
extended_length n = if ltb n 126 then [] else (if ltb n 65536 then pack 2 n else pack 8 n)

opcode_table :
    all_below 16 (λ c. bit_and c 15 == c && bit_and (128 + c) 15 == c && bit_or 128 c == 128 + c)
    ≡ true
opcode_table = refl

flag_table :
    all_below 128 (λ c. bit_and c 127 == c && bit_and (128 + c) 127 == c && bit_or 128 c == 128 + c)
    ≡ true
flag_table = refl

high_table : all_below 128 (λ c. not (high_bit c) && high_bit (128 + c)) ≡ true
unfolding high_bit
high_table = refl

pub first_byte-opcode :
    (fin : Bool) (code : ℕ) → code < 16 → bit_and (first_byte fin code) 15 ≡ code
unfolding first_byte
first_byte-opcode true code h =
    let all =
      all_below_sound 16
        (λ c. bit_and c 15 == c && bit_and (128 + c) 15 == c && bit_or 128 c == 128 + c) code
        opcode_table h in
    ground arith
first_byte-opcode false code h =
    let all =
      all_below_sound 16
        (λ c. bit_and c 15 == c && bit_and (128 + c) 15 == c && bit_or 128 c == 128 + c) code
        opcode_table h in
    ground arith

pub high_bit-flag :
    (flag : Bool) (code : ℕ) → code < 128 → high_bit (if flag then 128 + code else code) ≡ flag
high_bit-flag true code h =
    let all = all_below_sound 128 (λ c. not (high_bit c) && high_bit (128 + c)) code high_table h in
    ground arith
high_bit-flag false code h =
    let all = all_below_sound 128 (λ c. not (high_bit c) && high_bit (128 + c)) code high_table h in
    ground arith

pub second_byte-short : (masked : Bool) (n : ℕ) → n < 128 → bit_and (second_byte masked n) 127 ≡ n
unfolding second_byte
second_byte-short true n h =
    let all =
      all_below_sound 128
        (λ c. bit_and c 127 == c && bit_and (128 + c) 127 == c && bit_or 128 c == 128 + c) n
        flag_table h in
    ground arith
second_byte-short false n h =
    let all =
      all_below_sound 128
        (λ c. bit_and c 127 == c && bit_and (128 + c) 127 == c && bit_or 128 c == 128 + c) n
        flag_table h in
    ground arith

pub first_byte-fin : (fin : Bool) (code : ℕ) → code < 16 → high_bit (first_byte fin code) ≡ fin
unfolding first_byte
first_byte-fin fin code h = high_bit-flag fin code (omega arith)

pub first_byte-bit_or : (code : ℕ) → code < 16 → bit_or 128 code ≡ first_byte true code
unfolding first_byte
first_byte-bit_or code h =
    let all =
      all_below_sound 16
        (λ c. bit_and c 15 == c && bit_and (128 + c) 15 == c && bit_or 128 c == 128 + c) code
        opcode_table h in
    ground arith

pub second_byte-bit_or : (n : ℕ) → n < 128 → bit_or 128 n ≡ 128 + n
second_byte-bit_or n h =
    let all =
      all_below_sound 128
        (λ c. bit_and c 127 == c && bit_and (128 + c) 127 == c && bit_or 128 c == 128 + c) n
        flag_table h in
    ground arith
