-- ===== src/Runner.antt =====
-- src/agent_keepalive/runner.py: the process that keeps one target of a provider. Its session with
-- the provider is what the outside answers: a list of attempts to attach, and a list of passes of
-- the loop. Log lines are left out. A signal is taken where the process waits, that is in the wait
-- for a retry and in a poll. Neither the end of a detach nor that of the session has an effect on
-- the state, and an idle timeout is positive, as parse_duration gives it.
pub mod Backoff
pub mod Ends
use agent_keepalive.Claude.Status.{or_text}
use agent_keepalive.Json.{merge}
use agent_keepalive.Prelude.{
  Bool, List, Option, String, [], false, if◌then◌else◌, int_eq, leb, nat_eq, none, pair_eq, pos,
  some, string_eq, text_append, text_eq, true, ℕ, ℤ, ◌*◌, ◌+◌, ◌==◌, ◌∷◌,
}
use agent_keepalive.Python.{Python, isoformat_or_none}
use agent_keepalive.Record.{KeeperRecord, new_record, touch}
use agent_keepalive.Snapshot.{RunConfig, Snapshot, snapshot_should_detach}
use agent_keepalive.Store.{Records, remove_record, save}
use agent_keepalive.TimeParse.{Instant, second, whole_seconds}

-- An exception: the name of its class, and its text.
pub record Failure : Type 0 where
  pub class_name : String
  pub message : String

pub record Keeper : Type 0 where
  pub own_record : KeeperRecord
  pub keeper_store : Records
  pub stop_requested : Bool
  pub stop_cause : String
  -- The delays that were waited for, the last one first.
  pub waits : List ℕ
  pub last_ping : ℕ

-- What session.attach() gives, with the time, and the signal that came in the wait after it.
pub data Attempt : Type 0 where
  attached : (seen : Snapshot) → Attempt
  unavailable : (reason : Failure) (at : Instant) (signal : Option String) → Attempt
  broken : (reason : Failure) (at : Instant) → Attempt

-- What session.poll() gives.
pub data Poll : Type 0 where
  poll_answered : (seen : Snapshot) → Poll
  poll_failed : (reason : Failure) → Poll

-- What one pass of the loop is told.
pub record Pass : Type 0 where
  pub polled : Poll
  pub poll_signal : Option String
  pub ping_failure : Option Failure
  pub pass_monotonic : ℕ
  pub pass_time : Instant

pub data Attaching : Type 0 where
  taken : (seen : Snapshot) (k : Keeper) → Attaching
  stopped_first : (k : Keeper) → Attaching
  raised : (reason : Failure) (at : Instant) (k : Keeper) → Attaching
  still_trying : (k : Keeper) → Attaching

-- The process still runs, or it has ended with an exit code.
pub data Progress : Type 0 where
  running : (k : Keeper) → Progress
  exited : (exit_code : ℕ) (k : Keeper) → Progress

-- Delays are in seconds, and monotonic times in microseconds.
abbrev pub retry_initial_delay : ℕ
retry_initial_delay = 5

abbrev pub retry_max_delay : ℕ
retry_max_delay = 300

abbrev pub ping_interval : ℕ
ping_interval = 60 * second

-- min(delay * 2, CODEX_APP_SERVER_RETRY_MAX_DELAY)
unfoldable pub next_delay : ℕ → ℕ
next_delay delay = if leb (delay * 2) retry_max_delay then delay * 2 else retry_max_delay

-- The signal handler.
unfoldable pub take_signal : Option String → Keeper → Keeper
take_signal none k = k
take_signal (some name) k = record k {
  stop_requested = true;
  stop_cause = text_append "signal_" name;
}

module _ (py : Python) where
  -- _persist_state
  unfoldable pub persist_state : Instant → Keeper → Keeper
  persist_state at k = record k {
    keeper_store = save (py.isoformat at) k.own_record k.keeper_store;
    own_record = touch (py.isoformat at) k.own_record;
  }

  -- _apply_snapshot
  unfoldable pub apply_snapshot : Snapshot → Keeper → Keeper
  apply_snapshot seen k = record k {
    own_record = record (k.own_record) {
      display_name = or_text seen.display_name k.own_record.display_name;
      target_status = seen.status;
      loaded = seen.loaded;
      blocked = seen.blocked;
      terminal = seen.terminal;
      last_activity_at = isoformat_or_none py seen.last_activity_at;
      last_event_at = isoformat_or_none py seen.last_event_at;
      idle_since = isoformat_or_none py seen.idle_since;
      event_count = seen.event_count;
      provider_metadata = merge k.own_record.provider_metadata seen.metadata;
    };
  }

  -- What `_attach_with_retry` does when the app server is not there, the wait included.
  unfoldable pub note_unavailable : Failure → Instant → Option String → ℕ → Keeper → Keeper
  note_unavailable reason at signal delay k =
      let waiting = persist_state at (record k {
        own_record = record (k.own_record) {
          keeper_status = "waiting_for_codex_app_server";
          last_error = some reason.message;
        };
      }) in
      take_signal signal (record waiting { waits = delay ∷ waiting.waits })

  -- _attach_with_retry
  unfoldable pub attach_with_retry : ℕ → List Attempt → Keeper → Attaching
  attach_with_retry delay [] k = if k.stop_requested then stopped_first k else still_trying k
  attach_with_retry delay (attached seen ∷ attempts) k =
      if k.stop_requested
      then stopped_first k
      else taken seen (record k { own_record = record (k.own_record) { last_error = none } })
  attach_with_retry delay (unavailable reason at signal ∷ attempts) k =
      let rest =
        attach_with_retry (next_delay delay) attempts (note_unavailable reason at signal delay k) in
      if k.stop_requested then stopped_first k else rest
  attach_with_retry delay (broken reason at ∷ attempts) k =
      if k.stop_requested then stopped_first k else raised reason at k

  -- _graceful_detach
  unfoldable pub graceful_detach : Instant → Keeper → Keeper
  graceful_detach at k = persist_state at (record k {
    own_record = record (k.own_record) {
      keeper_status = "stopping";
      stop_reason = some k.stop_cause;
    };
  })

  module _ (config : RunConfig) where
    -- The `finally` of run.
    unfoldable pub close_keeper : Keeper → Keeper
    close_keeper k = if k.own_record.keeper_status == "error" then k else record k {
      keeper_store = remove_record config.provider config.target_id k.keeper_store;
    }

    -- The `except` of run.
    unfoldable pub fail_keeper : Failure → Instant → Keeper → Progress
    fail_keeper reason at k = exited 1 (
        close_keeper (
          persist_state at (record k {
            own_record = record (k.own_record) {
              keeper_status = "error";
              last_error =
                  some (if config.provider == "claude" then reason.class_name else reason.message);
            };
          })))

    -- What follows the loop.
    unfoldable pub finish : Instant → Keeper → Progress
    finish at k = exited 0 (
        close_keeper (
          graceful_detach at (record k {
            stop_cause = if k.stop_cause == "unknown" then "signal" else k.stop_cause;
          })))

    -- The test for idleness at the end of a pass.
    unfoldable pub after_ping : Pass → Snapshot → Keeper → Progress
    after_ping p seen k =
        if snapshot_should_detach (whole_seconds config.idle_timeout) p.pass_time seen
        then finish p.pass_time (record k { stop_cause = "idle_timeout_reached" })
        else running k

    -- The ping, if it is due.
    unfoldable pub after_poll : Pass → Snapshot → Keeper → Progress
    after_poll p seen k =
        if leb (k.last_ping + ping_interval) p.pass_monotonic
        then elim p.ping_failure [
          | some reason ↦ fail_keeper reason p.pass_time k
          | none ↦ after_ping p seen (record k { last_ping = p.pass_monotonic })
        ]
        else after_ping p seen k

    -- One pass of the loop: either the process ends, or it goes on.
    unfoldable pub pass_once : Pass → Keeper → Progress
    pass_once p k = elim p.polled [
      | poll_failed reason ↦ fail_keeper reason p.pass_time (take_signal p.poll_signal k)
      | poll_answered seen ↦
          let k' = persist_state p.pass_time (apply_snapshot seen (take_signal p.poll_signal k)) in
          if k'.own_record.terminal
          then exited 0 (close_keeper (record k' { stop_cause = "target_terminal" }))
          else after_poll p seen k'
    ]

    -- The loop of run.
    unfoldable pub keep_loop : List Pass → Keeper → Progress
    keep_loop [] k = running k
    keep_loop (p ∷ passes) k =
        let next : Progress = elim (pass_once p k) [
          | running k' ↦ keep_loop passes k'
          | exited exit_code k' ↦ exited exit_code k'
        ] in
        if k.stop_requested then finish p.pass_time k else next

    -- After a snapshot was taken on attaching; `monotonic` is when the first ping interval begins.
    unfoldable pub begin_loop : Snapshot → Instant → ℕ → Keeper → Keeper
    begin_loop seen at monotonic k =
        let j = persist_state at (
          apply_snapshot seen (record k {
            own_record = record (k.own_record) { keeper_status = "attached"; last_error = none };
          })) in
        record j { last_ping = monotonic }

    -- run, from the time at which it starts, and the one at which attaching ends.
    unfoldable pub run_keeper : Instant → Instant → ℕ → List Attempt → List Pass → Keeper → Progress
    run_keeper start at monotonic attempts passes k =
        elim (attach_with_retry retry_initial_delay attempts (persist_state start k)) [
          | taken seen j ↦ keep_loop passes (begin_loop seen at monotonic j)
          | stopped_first j ↦ exited 0 (close_keeper (graceful_detach at j))
          | raised reason failed_at j ↦ fail_keeper reason failed_at j
          | still_trying j ↦ running j
        ]

    -- Keeper.__init__
    unfoldable pub new_keeper : ℤ → String → Instant → Records → Keeper
    new_keeper pid log_path at records = record {
      own_record =
          new_record config.provider config.target_id pid none
            (pos (whole_seconds config.idle_timeout)) log_path config.selected_via config.metadata
            (py.isoformat at);
      keeper_store = records;
      stop_requested = false;
      stop_cause = "unknown";
      waits = [];
      last_ping = 0;
    }
