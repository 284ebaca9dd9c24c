-- ===== src/Runner/Ends.antt =====
-- src/agent_keepalive/runner.py, run: what the store holds while the process runs and when it ends.
use agent_keepalive.Prelude.{
  Bool, List, Option, Option-cases, String, [], false, if_elim, inl, inr, int_eq, leb, nat_eq, none,
  pair_eq, refl, some, string_eq, text_eq, ℕ, ℤ, ◌+◌, ◌==◌, ◌∷◌, ◌≡◌, ◌≢◌, ◌⊎◌,
}
use agent_keepalive.Python.{Python}
use agent_keepalive.Record.{new_record, touch}
use agent_keepalive.Runner.{
  Attaching, Attempt, Failure, Keeper, Pass, Poll, Progress, after_ping, after_poll, apply_snapshot,
  attach_with_retry, attached, begin_loop, broken, close_keeper, exited, fail_keeper, finish,
  graceful_detach, keep_loop, new_keeper, next_delay, note_unavailable, pass_once, persist_state,
  ping_interval, poll_answered, poll_failed, raised, retry_initial_delay, run_keeper, running,
  still_trying, stopped_first, take_signal, taken, unavailable,
}
use agent_keepalive.Snapshot.{RunConfig, Snapshot, snapshot_should_detach}
use agent_keepalive.Store.{Records, load}
use agent_keepalive.Store.Laws.{load-remove_record_own, load-save_own}
use agent_keepalive.TimeParse.{Instant, whole_seconds}

module _ (py : Python) (config : RunConfig) where
  abbrev pub Owned : Keeper → Type 0
  Owned k = (k.own_record.provider ≡ config.provider) × (k.own_record.target_id ≡ config.target_id)

  abbrev pub has_failed : Keeper → Bool
  has_failed k = k.own_record.keeper_status == "error"

  -- The record is the target's, it shows no error, and the store has it as the process has it.
  abbrev pub Alive : Keeper → Type 0
  Alive k =
      Owned k
      × (has_failed k ≡ false)
      × (load config.provider config.target_id k.keeper_store ≡ some k.own_record)

  -- While the process runs it is alive. When it has ended well its record is gone, and when it has
  -- failed its record stays and says so.
  abbrev pub Sound : Progress → Type 0
  Sound (running k) = Alive k
  Sound (exited exit_code k) =
      ((exit_code ≡ 0) × (load config.provider config.target_id k.keeper_store ≡ none))
      ⊎ ((exit_code ≡ 1)
          × (load config.provider config.target_id k.keeper_store ≡ some k.own_record)
          × (k.own_record.keeper_status ≡ "error")
          × (k.own_record.last_error ≢ none))

  persist_state-Alive :
      (at : Instant) (k : Keeper) → Owned k → has_failed k ≡ false → Alive (persist_state py at k)
  unfolding persist_state touch
  persist_state-Alive at k own fine = (
    own,
    fine,
    load-save_own (py.isoformat at) config.provider config.target_id k.own_record k.keeper_store
        own.0 own.1,
  )

  fail_keeper-Sound :
      (reason : Failure) (at : Instant) (k : Keeper)
      → Owned k
      → Sound (fail_keeper py config reason at k)
  unfolding fail_keeper close_keeper persist_state touch
  fail_keeper-Sound reason at k own = inr (
    refl,
    load-save_own (py.isoformat at) config.provider config.target_id _ k.keeper_store own.0 own.1,
    refl,
    λ e. cc e,
  )

  finish-Sound : (at : Instant) (k : Keeper) → Sound (finish py config at k)
  unfolding finish close_keeper graceful_detach persist_state touch
  finish-Sound at k = inl (refl, load-remove_record_own config.provider config.target_id _)

  -- A process that has not failed removes its record when it ends.
  close_keeper-Sound :
      (k : Keeper) → has_failed k ≡ false → Sound (exited 0 (close_keeper py config k))
  unfolding close_keeper
  close_keeper-Sound k fine =
      inl (refl, rw fine (load-remove_record_own config.provider config.target_id k.keeper_store))

  after_ping-Sound :
      (p : Pass) (seen : Snapshot) (k : Keeper) → Alive k → Sound (after_ping py config p seen k)
  unfolding after_ping
  after_ping-Sound p seen k h =
      if_elim Sound (snapshot_should_detach (whole_seconds config.idle_timeout) p.pass_time seen) _
        _ (λ _. finish-Sound p.pass_time _) (λ _. h)

  after_poll-Sound :
      (p : Pass) (seen : Snapshot) (k : Keeper) → Alive k → Sound (after_poll py config p seen k)
  unfolding after_poll
  after_poll-Sound p seen k h =
      if_elim Sound (leb (k.last_ping + ping_interval) p.pass_monotonic) _ _
        (λ _. elim (Option-cases p.ping_failure) [
          | inl e ↦
              rw (e, after_poll)
                (after_ping-Sound p seen (record k { last_ping = p.pass_monotonic }) h)
          | inr (reason, e) ↦ rw (e, after_poll) (fail_keeper-Sound reason p.pass_time k h.0)
        ])
        (λ _. after_ping-Sound p seen k h)

  stopping : (at : Instant) (k : Keeper) → has_failed (graceful_detach py at k) ≡ false
  unfolding graceful_detach persist_state touch
  stopping at k = refl

  Poll-cases :
      (p : Poll)
      → ((seen : Snapshot) × (p ≡ poll_answered seen))
        ⊎ ((reason : Failure) × (p ≡ poll_failed reason))
  Poll-cases (poll_answered seen) = inl (seen, refl)
  Poll-cases (poll_failed reason) = inr (reason, refl)

  take_signal-Alive : (signal : Option String) (k : Keeper) → Alive k → Alive (take_signal signal k)
  unfolding take_signal
  take_signal-Alive none k h = h
  take_signal-Alive (some name) k h = h

  -- A snapshot that is applied and saved.
  saved-Alive :
      (seen : Snapshot) (at : Instant) (k : Keeper)
      → Alive k
      → Alive (persist_state py at (apply_snapshot py seen k))
  unfolding apply_snapshot
  saved-Alive seen at k h = persist_state-Alive at (apply_snapshot py seen k) h.0 h.1

  pass_once-Sound : (p : Pass) (k : Keeper) → Alive k → Sound (pass_once py config p k)
  unfolding pass_once
  pass_once-Sound p k h = elim (Poll-cases p.polled) [
    | inl (seen, e) ↦
        let j : Keeper =
          persist_state py p.pass_time (apply_snapshot py seen (take_signal p.poll_signal k)) in
        let alive = saved-Alive seen p.pass_time _ (take_signal-Alive p.poll_signal k h) in
        rw (e, pass_once)
          (if_elim Sound j.own_record.terminal _ _
            (λ _. close_keeper-Sound (record j { stop_cause = "target_terminal" }) alive.1)
            (λ _. after_poll-Sound p seen j alive))
    | inr (reason, e) ↦
        rw (e, pass_once)
          (fail_keeper-Sound reason p.pass_time _ (take_signal-Alive p.poll_signal k h).0)
  ]

  -- After a pass, the loop goes on if the process still runs.
  go_on :
      (passes : List Pass)
      → ((j : Keeper) → Alive j → Sound (keep_loop py config passes j))
      → (r : Progress) → Sound r
      → Sound (elim r [
        | running j ↦ keep_loop py config passes j
        | exited exit_code j ↦ exited exit_code j
      ])
  go_on passes ih (running j) h = ih j h
  go_on passes ih (exited exit_code j) h = h

  keep_loop-Sound :
      (passes : List Pass) (k : Keeper) → Alive k → Sound (keep_loop py config passes k)
  unfolding keep_loop
  keep_loop-Sound [] k h = h
  keep_loop-Sound (p ∷ passes) k h =
      if_elim Sound k.stop_requested _ _ (λ _. finish-Sound p.pass_time k)
        (λ _.
          go_on passes (λ j alive. keep_loop-Sound passes j alive) (pass_once py config p k)
            (pass_once-Sound p k h))

  -- What attaching leaves.
  abbrev Attaches : Attaching → Type 0
  Attaches (taken seen k) = Owned k
  Attaches (stopped_first k) = Owned k
  Attaches (raised reason at k) = Owned k
  Attaches (still_trying k) = Alive k

  note_unavailable-Alive :
      (reason : Failure) (at : Instant) (signal : Option String) (delay : ℕ) (k : Keeper)
      → Alive k
      → Alive (note_unavailable py reason at signal delay k)
  unfolding note_unavailable
  note_unavailable-Alive reason at signal delay k h =
      take_signal-Alive signal _ (persist_state-Alive at _ h.0 refl)

  attach_with_retry-Attaches :
      (delay : ℕ) (attempts : List Attempt) (k : Keeper)
      → Alive k
      → Attaches (attach_with_retry py delay attempts k)
  unfolding attach_with_retry
  attach_with_retry-Attaches delay [] k h =
      if_elim Attaches k.stop_requested _ _ (λ _. h.0) (λ _. h)
  attach_with_retry-Attaches delay (attached seen ∷ attempts) k h =
      if_elim Attaches k.stop_requested _ _ (λ _. h.0) (λ _. h.0)
  attach_with_retry-Attaches delay (unavailable reason at signal ∷ attempts) k h =
      if_elim Attaches k.stop_requested _ _ (λ _. h.0)
        (λ _.
          attach_with_retry-Attaches (next_delay delay) attempts _
            (note_unavailable-Alive reason at signal delay k h))
  attach_with_retry-Attaches delay (broken reason at ∷ attempts) k h =
      if_elim Attaches k.stop_requested _ _ (λ _. h.0) (λ _. h.0)

  begin_loop-Alive :
      (seen : Snapshot) (at : Instant) (monotonic : ℕ) (k : Keeper)
      → Owned k
      → Alive (begin_loop py config seen at monotonic k)
  unfolding begin_loop apply_snapshot
  begin_loop-Alive seen at monotonic k own = persist_state-Alive at _ own refl

  -- Whatever the session and the clock answer: while a new process runs, its record is the
  -- target's, has a status other than "error", and stands in the store as the process has it;
  -- when the process ends with 0, the store has no record of the target; and when it ends
  -- otherwise, it ends with 1, and the record in the store is the process's, with the status
  -- "error" and the error.
  pub run_keeper-Sound :
      (pid : ℤ) (log_path : String) (records : Records) (start at : Instant) (monotonic : ℕ)
      (attempts : List Attempt) (passes : List Pass)
      → Sound (
          run_keeper py config start at monotonic attempts passes
            (new_keeper py config pid log_path start records))
  unfolding run_keeper new_keeper new_record
  run_keeper-Sound pid log_path records start at monotonic attempts passes =
      after (attach_with_retry py retry_initial_delay attempts first) (
        attach_with_retry-Attaches retry_initial_delay attempts first
          (persist_state-Alive start _ (refl, refl) refl))
    where
      first : Keeper
      first = persist_state py start (new_keeper py config pid log_path start records)

      after :
          (r : Attaching)
          → Attaches r
          → Sound (elim r [
            | taken seen j ↦ keep_loop py config passes (begin_loop py config seen at monotonic j)
            | stopped_first j ↦ exited 0 (close_keeper py config (graceful_detach py at j))
            | raised reason failed_at j ↦ fail_keeper py config reason failed_at j
            | still_trying j ↦ running j
          ])
      after (taken seen j) h = keep_loop-Sound passes _ (begin_loop-Alive seen at monotonic j h)
      after (stopped_first j) h = close_keeper-Sound _ (stopping at j)
      after (raised reason failed_at j) h = fail_keeper-Sound reason failed_at j h
      after (still_trying j) h = h
