-- ===== src/Ws/Pieces.antt =====
-- Reading exactly so many bytes (agent_keepalive/ws.py, _recv_exact), against the peer's bytes taken
-- as one stream.
use agent_keepalive.Prelude.{
  Bool-cases, Bytes, List, Option, Result, [], ap, arith, drop, err, if◌then◌else◌, inl, inr,
  length, ltb, ok, refl, suc, sym, take, timeout_error, true, zero, ℕ, ◌++◌, ◌-◌, ◌<◌, ◌∙◌, ◌∷◌,
  ◌≡◌, ◌≢◌, ◌≤◌,
}
use agent_keepalive.Ws.{
  Arrival, WebSocket, arrived, hung_up, leftover, pause_left, quiet, read_failed, recv, time_left,
  waits_through,
}
use mathlib.Core.List.{append_assoc}

-- The bytes that arrive before the peer closes, reading fails or nothing arrives for longer than the
-- limit, of which `left` is what is left at first.
unfoldable pub stream_within : (limit left : Option ℕ) → List Arrival → Bytes
stream_within limit left [] = []
stream_within limit left (arrived b bs ∷ later) = b ∷ bs ++ stream_within limit limit later
stream_within limit left (quiet d ∷ later) =
    let rest = stream_within limit (time_left left d) later in
    if waits_through left d then rest else []
stream_within limit left (read_failed errno text ∷ later) = []
stream_within limit left (hung_up ∷ later) = []

unfoldable pub stream : Option ℕ → List Arrival → Bytes
unfolding stream_within
stream limit inbox = stream_within limit limit inbox

unfoldable pub with_arrivals : WebSocket → List Arrival → WebSocket
with_arrivals w inbox = record w { arrivals = inbox }

-- A method gave this value, left these bytes of the peer and is else at this state.
abbrev pub Receives {ℓ} : {A : Type ℓ} → Result A × WebSocket → WebSocket → A → Bytes → Type ℓ
Receives r w a rest =
    (inbox : List Arrival) × (r ≡ (ok a, with_arrivals w inbox))
    × (stream w.time_limit inbox ≡ rest)

abbrev ChunkWithin : (limit left : Option ℕ) → ℕ → List Arrival → Type 0
ChunkWithin limit left n inbox =
    (c : ℕ) × (cs : Bytes) × (later : List Arrival) × (recv left n inbox ≡ (ok (c ∷ cs), later))
    × (c ∷ cs ++ stream limit later ≡ stream_within limit left inbox)
    × (length cs < n)

stream-leftover :
    (limit : Option ℕ) (bs : Bytes) (later : List Arrival)
    → stream limit (leftover bs later) ≡ bs ++ stream limit later
unfolding stream stream_within leftover
stream-leftover limit [] later = refl
stream-leftover limit (b ∷ bs) later = refl

length-take_le : (n : ℕ) (xs : Bytes) → length (take n xs) ≤ n
length-take_le zero xs = omega arith
length-take_le (suc n) [] = omega arith
length-take_le (suc n) (x ∷ xs) = (let ih = length-take_le n xs in omega arith)

take-drop : (n : ℕ) (xs : Bytes) → take n xs ++ drop n xs ≡ xs
take-drop zero xs = refl
take-drop (suc n) [] = refl
take-drop (suc n) (x ∷ xs) = ap (λ ys. x ∷ ys) (take-drop n xs)

chunk_within :
    (limit left : Option ℕ) (n : ℕ) (inbox : List Arrival)
    → 0 < n
    → stream_within limit left inbox ≢ []
    → ChunkWithin limit left n inbox
unfolding stream stream_within recv
chunk_within limit left n [] positive h = absurd (h refl)
chunk_within limit left n (hung_up ∷ later) positive h = absurd (h refl)
chunk_within limit left n (read_failed errno text ∷ later) positive h = absurd (h refl)
chunk_within limit left n (arrived b bs ∷ later) positive h = (
  b,
  take (n - 1) bs,
  leftover (drop (n - 1) bs) later,
  refl,
  ap (λ ys. b ∷ ys)
      (ap (λ ys. take (n - 1) bs ++ ys) (stream-leftover limit (drop (n - 1) bs) later)
        ∙ sym (append_assoc (take (n - 1) bs) (drop (n - 1) bs) (stream limit later))
        ∙ ap (λ ys. ys ++ stream limit later) (take-drop (n - 1) bs)),
  (let fits = length-take_le (n - 1) bs in omega arith),
)
chunk_within limit left n (quiet d ∷ later) positive h = elim (Bool-cases (waits_through left d)) [
  | inl yes_d ↦
      (let open_stream =
          ap (λ b. if b then stream_within limit (time_left left d) later else []) yes_d in
        let (c, cs, rest, got, whole, small) =
          chunk_within limit (time_left left d) n later positive (λ e. h (open_stream ∙ e)) in
        (
          c,
          cs,
          rest,
          ap
                (λ b.
                  if b
                  then recv (time_left left d) n later
                  else (err (timeout_error "timed out"), quiet (pause_left left d) ∷ later))
                yes_d
              ∙ got,
          whole ∙ sym open_stream,
          small,
        ))
  | inr no_d ↦
      absurd (h (ap (λ b. if b then stream_within limit (time_left left d) later else []) no_d))
]

abbrev Chunk : Option ℕ → ℕ → List Arrival → Type 0
Chunk limit n inbox =
    (c : ℕ) × (cs : Bytes) × (later : List Arrival) × (recv limit n inbox ≡ (ok (c ∷ cs), later))
    × (c ∷ cs ++ stream limit later ≡ stream limit inbox)
    × (length cs < n)

pub chunk_lem :
    (limit : Option ℕ) (n : ℕ) (inbox : List Arrival)
    → 0 < n
    → stream limit inbox ≢ []
    → Chunk limit n inbox
unfolding stream
chunk_lem limit n inbox positive h = chunk_within limit limit n inbox positive h

abbrev head_or : Bytes → ℕ
head_or [] = 0
head_or (x ∷ xs) = x

pub cons_ne : {x : ℕ} {xs : Bytes} → x ∷ xs ≢ []
cons_ne e = cc

pub ltb_of_lt : {a b : ℕ} → a < b → ltb a b ≡ true
ltb_of_lt h = ground arith

cons_head : (x y : ℕ) (xs ys : Bytes) → x ∷ xs ≡ y ∷ ys → x ≡ y
cons_head x y xs ys h = ap (λ zs. head_or zs) h

cons_tail : (x y : ℕ) (xs ys : Bytes) → x ∷ xs ≡ y ∷ ys → xs ≡ ys
cons_tail x y xs ys h = ap (λ zs. drop 1 zs) h

-- Two ways to cut one list, the first cut not after the second.
pub prefix_of :
    (xs ys us rs : Bytes)
    → xs ++ ys ≡ us ++ rs
    → length xs ≤ length us
    → (vs : Bytes) × (us ≡ xs ++ vs) × (ys ≡ vs ++ rs)
prefix_of [] ys us rs h le = (us, refl, h)
prefix_of (x ∷ xs) ys [] rs h le = absurd (omega arith)
prefix_of (x ∷ xs) ys (u ∷ us) rs h le =
    let shorter : length xs ≤ length us = omega arith in
    let (vs, here, there) = prefix_of xs ys us rs (cons_tail x u (xs ++ ys) (us ++ rs) h) shorter in
    (vs, (let heads = cons_head x u (xs ++ ys) (us ++ rs) h in cc), there)
