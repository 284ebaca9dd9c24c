-- ===== src/Runner/Backoff.antt =====
-- src/agent_keepalive/runner.py, _attach_with_retry: the delays between two attempts.
use agent_keepalive.Prelude.{
  List, Option, String, [], ap, arith, false, if◌then◌else◌, leb, none, refl, some, suc, true, zero,
  ℕ, ◌*◌, ◌+◌, ◌^◌, ◌∙◌, ◌∷◌, ◌≡◌,
}
use agent_keepalive.Python.{Python}
use agent_keepalive.Runner.{
  Attaching, Attempt, Failure, Keeper, attach_with_retry, attached, broken, next_delay,
  note_unavailable, persist_state, raised, retry_initial_delay, retry_max_delay, still_trying,
  stopped_first, take_signal, taken, unavailable,
}
use agent_keepalive.TimeParse.{Instant}
use native.Mathlib.Nat.{pow-suc}

-- The smaller of two numbers.
abbrev at_most : ℕ → ℕ → ℕ
at_most a b = if leb a b then a else b

-- The delay after `n` failed attempts: twice the one before, but never more than five minutes.
abbrev pub delay_after : ℕ → ℕ
delay_after n = at_most (retry_initial_delay * 2 ^ n) retry_max_delay

next_delay-delay_after : (n : ℕ) → next_delay (delay_after n) ≡ delay_after (suc n)
unfolding next_delay
next_delay-delay_after n = let double : 2 ^ suc n ≡ 2 ^ n * 2 = pow-suc 2 n in ground arith

-- The delays of the first `n` failed attempts, the last one first.
unfoldable pub delays : ℕ → List ℕ
delays zero = []
delays (suc n) = delay_after n ∷ delays n

-- How many attempts fail because the app server is not there, before the first one that does not or
-- up to one after which a signal comes.
unfoldable pub failed_attempts : List Attempt → ℕ
failed_attempts [] = 0
failed_attempts (attached seen ∷ attempts) = 0
failed_attempts (broken reason at ∷ attempts) = 0
failed_attempts (unavailable reason at none ∷ attempts) = suc (failed_attempts attempts)
failed_attempts (unavailable reason at (some signal) ∷ attempts) = 1

module _ (py : Python) where
  abbrev pub keeper_of : Attaching → Keeper
  keeper_of (taken seen k) = k
  keeper_of (stopped_first k) = k
  keeper_of (raised reason at k) = k
  keeper_of (still_trying k) = k

  waits-note_unavailable :
      (reason : Failure) (at : Instant) (signal : Option String) (delay : ℕ) (k : Keeper)
      → (note_unavailable py reason at signal delay k).waits ≡ delay ∷ k.waits
  unfolding note_unavailable take_signal persist_state
  waits-note_unavailable reason at none delay k = refl
  waits-note_unavailable reason at (some name) delay k = refl

  waited_once :
      (n : ℕ) (k : Keeper) (waits : List ℕ)
      → waits ≡ delay_after n ∷ k.waits
      → k.waits ≡ delays n
      → waits ≡ delays (suc n)
  unfolding delays
  waited_once n k waits e h = e ∙ ap (λ l. delay_after n ∷ l) h

  note_unavailable-goes_on :
      (reason : Failure) (at : Instant) (delay : ℕ) (k : Keeper)
      → (note_unavailable py reason at none delay k).stop_requested ≡ k.stop_requested
  unfolding note_unavailable take_signal persist_state
  note_unavailable-goes_on reason at delay k = refl

  note_unavailable-stops :
      (reason : Failure) (at : Instant) (name : String) (delay : ℕ) (k : Keeper)
      → (note_unavailable py reason at (some name) delay k).stop_requested ≡ true
  unfolding note_unavailable take_signal persist_state
  note_unavailable-stops reason at name delay k = refl

  attach_with_retry-stopped :
      (delay : ℕ) (attempts : List Attempt) (k : Keeper)
      → k.stop_requested ≡ true
      → attach_with_retry py delay attempts k ≡ stopped_first k
  unfolding attach_with_retry
  attach_with_retry-stopped delay [] k h = rw h refl
  attach_with_retry-stopped delay (attached seen ∷ attempts) k h = rw h refl
  attach_with_retry-stopped delay (broken reason at ∷ attempts) k h = rw h refl
  attach_with_retry-stopped delay (unavailable reason at signal ∷ attempts) k h = rw h refl

  none_more : (n : ℕ) → n ≡ 0 + n
  none_more n = omega arith

  attach_with_retry-unavailable :
      (reason : Failure) (at : Instant) (signal : Option String) (delay : ℕ)
      (attempts : List Attempt) (k : Keeper)
      → k.stop_requested ≡ false
      → attach_with_retry py delay (unavailable reason at signal ∷ attempts) k
        ≡ attach_with_retry py
            (next_delay delay)
            attempts
            (note_unavailable py reason at signal delay k)
  unfolding attach_with_retry
  attach_with_retry-unavailable reason at signal delay attempts k going =
      ap
        (λ b.
          if b
          then stopped_first k
          else attach_with_retry py (next_delay delay) attempts
              (note_unavailable py reason at signal delay k))
        going

  waits-from :
      (n : ℕ) (attempts : List Attempt) (k : Keeper)
      → k.stop_requested ≡ false
      → k.waits ≡ delays n
      → (keeper_of (attach_with_retry py (delay_after n) attempts k)).waits
        ≡ delays (failed_attempts attempts + n)
  unfolding attach_with_retry failed_attempts
  waits-from n [] k going h = rw going (h ∙ ap delays (none_more n))
  waits-from n (attached seen ∷ attempts) k going h = rw going (h ∙ ap delays (none_more n))
  waits-from n (broken reason at ∷ attempts) k going h = rw going (h ∙ ap delays (none_more n))
  waits-from n (unavailable reason at none ∷ attempts) k going h =
      let j : Keeper = note_unavailable py reason at none (delay_after n) k in
      let waited : j.waits ≡ delays (suc n) =
        waited_once n k _ (waits-note_unavailable reason at none (delay_after n) k) h in
      let later =
        waits-from (suc n) attempts j (note_unavailable-goes_on reason at (delay_after n) k ∙ going)
          waited in
      let index : failed_attempts attempts + suc n ≡ suc (failed_attempts attempts) + n =
        omega arith in
      ap (λ r. (keeper_of r).waits)
        (attach_with_retry-unavailable reason at none (delay_after n) attempts k going)
      ∙ (ap (λ d. (keeper_of (attach_with_retry py d attempts j)).waits) (next_delay-delay_after n)
          ∙ (later ∙ ap delays index))
  waits-from n (unavailable reason at (some name) ∷ attempts) k going h =
      let j : Keeper = note_unavailable py reason at (some name) (delay_after n) k in
      let waited : j.waits ≡ delays (suc n) =
        waited_once n k _ (waits-note_unavailable reason at (some name) (delay_after n) k) h in
      let index : suc n ≡ 1 + n = omega arith in
      ap (λ r. (keeper_of r).waits)
        (attach_with_retry-unavailable reason at (some name) (delay_after n) attempts k going
          ∙ attach_with_retry-stopped (next_delay (delay_after n)) attempts j
              (note_unavailable-stops reason at name (delay_after n) k))
      ∙ (waited ∙ ap delays index)

  -- A keeper that has not been stopped waits, between its attempts to attach, once for each of those
  -- that fail because the app server is not there, up to the first that does not or one after which
  -- a signal comes: 5 seconds, then each time twice as long, but never more than 300 seconds.
  pub attach_with_retry-delays :
      (attempts : List Attempt) (k : Keeper)
      → k.stop_requested ≡ false
      → k.waits ≡ []
      → (keeper_of (attach_with_retry py retry_initial_delay attempts k)).waits
        ≡ delays (failed_attempts attempts)
  unfolding delays
  attach_with_retry-delays attempts k going h =
      let index : failed_attempts attempts + 0 ≡ failed_attempts attempts = omega arith in
      waits-from 0 attempts k going h ∙ ap delays index
