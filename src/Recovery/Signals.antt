-- ===== src/Recovery/Signals.antt =====
-- Which restarts and signals the recovery may come to
-- (agent_keepalive/providers/codex_recovery.py).
use agent_keepalive.Prelude.{
  Bool, String, [], ap, false, give, holds_then, if_elim, not, ok, suc, true, zero, ℕ, ◌++◌, ◌∷◌,
  ◌≡◌, ◌⊎◌,
}
use agent_keepalive.Recovery.{
  Action, Completed, Host, KillAnswer, Log, Recovering, Signal, asked_for, connected_to, kill_done,
  kill_refused, listed_processes, listed_sockets, no_such_process, ran_command, sigkill, signalled,
  sigterm,
}
use agent_keepalive.Recovery.Flow.{
  other_socket, probed, read_daemon_version, restart_args, says_unmanaged, version_args,
}
use agent_keepalive.Recovery.Listener.{
  after_sigterm, inodes_of, kill_at_last, kill_result, listeners, process_exists, send_signal,
  terminate_process, wait_for_process_exit, wait_turns,
}
use agent_keepalive.Recovery.Versions.{
  CodexDaemonVersion, classify_version_state, expected_codex_version, stale,
}

-- At the start the server was seen with a version older than the expected one, and the daemon did
-- not answer for another socket.
abbrev pub SeenStale : Host → (codex_bin socket_path : String) → Type 0
SeenStale host codex_bin socket_path =
    (actual : String) × (daemon : CodexDaemonVersion) × (expected : String) × (probed host
        socket_path (host.connect [] socket_path)
      ≡ ok actual)
    × ((read_daemon_version host codex_bin (connected_to socket_path ∷ [])).0 ≡ ok daemon)
    × (expected_codex_version host daemon ≡ ok expected)
    × (classify_version_state host actual expected ≡ ok stale)
    × (other_socket daemon socket_path ≡ false)

-- A restart, of which `before` was done before it, ended and said that the server is not managed.
abbrev pub Refused : Host → (before : Log) → Type 0
Refused host before =
    (result : Completed) × (host.run before restart_args ≡ ok result)
    × (says_unmanaged host result ≡ true)

-- A restart said that the server is not managed, and after it the process was the only one that
-- holds a socket bound to the path and looks like a Codex server.
abbrev pub OnlyListener : Host → (socket_path : String) → ℕ → Log → Type 0
OnlyListener host socket_path pid log =
    (recent : Log) × (before : Log) × (log ≡ recent ++ ran_command restart_args ∷ before)
    × Refused host before
    × (listeners host (inodes_of socket_path (host.unix_table (ran_command restart_args ∷ before)))
          (host.processes (listed_sockets ∷ ran_command restart_args ∷ before))
        ≡ pid ∷ [])

unfoldable pub Warranted : Host → (codex_bin socket_path : String) → Log → Action → Type 0
Warranted host codex_bin socket_path log (ran_command args) =
    (args ≡ version_args) ⊎ ((args ≡ restart_args) × SeenStale host codex_bin socket_path)
Warranted host codex_bin socket_path log (signalled pid signal) =
    OnlyListener host socket_path pid log × SeenStale host codex_bin socket_path
Warranted host codex_bin socket_path log (connected_to path) = Unit
Warranted host codex_bin socket_path log listed_sockets = Unit
Warranted host codex_bin socket_path log listed_processes = Unit
Warranted host codex_bin socket_path log (asked_for pid) = Unit

-- Each action was warranted by what had been done and answered before it.
unfoldable pub AllWarranted : Host → (codex_bin socket_path : String) → Log → Type 0
AllWarranted host codex_bin socket_path [] = Unit
AllWarranted host codex_bin socket_path (action ∷ log) =
    Warranted host codex_bin socket_path log action × AllWarranted host codex_bin socket_path log

module _ (host : Host) (codex_bin socket_path : String) where
  abbrev pub Ending : ℕ → Log → Type 0
  Ending pid log =
      AllWarranted host codex_bin socket_path log × OnlyListener host socket_path pid log

  later_listener :
      (pid : ℕ) (action : Action) (log : Log)
      → OnlyListener host socket_path pid log
      → OnlyListener host socket_path pid (action ∷ log)
  later_listener pid action log (recent, before, split, said, only) =
      (action ∷ recent, before, ap (λ l. action ∷ l) split, said, only)

  process_exists-Ending :
      (pid : ℕ) (log : Log) → Ending pid log → Ending pid (process_exists host pid log).1
  unfolding process_exists AllWarranted Warranted
  process_exists-Ending pid log (all, only) =
      ((tt, all), later_listener pid (asked_for pid) log only)

  wait_turns-Ending :
      (pid turns : ℕ) (log : Log) → Ending pid log → Ending pid (wait_turns host pid turns log).1
  unfolding wait_turns
  wait_turns-Ending pid zero log h =
      holds_then (Ending pid) (process_exists host pid log) _ (process_exists-Ending pid log h)
        (λ there l k. k)
  wait_turns-Ending pid (suc turns) log h =
      holds_then (Ending pid) (process_exists host pid log) _ (process_exists-Ending pid log h)
        (λ there l k.
          if_elim {A = Recovering Bool} (λ m. Ending pid (m l).1) (not there) (give true)
            (wait_turns host pid turns) (λ _. k) (λ _. wait_turns-Ending pid turns l k))

  send_signal-Ending :
      (stale_seen : SeenStale host codex_bin socket_path) (pid : ℕ) (signal : Signal) (log : Log)
      → Ending pid log
      → Ending pid (send_signal host pid signal log).1
  unfolding send_signal AllWarranted Warranted
  send_signal-Ending seen pid signal log (all, only) =
      (((only, seen), all), later_listener pid (signalled pid signal) log only)

  kill_at_last-Ending :
      SeenStale host codex_bin socket_path
      → (pid : ℕ) (log : Log) → Ending pid log
      → Ending pid (kill_at_last host pid log).1
  unfolding kill_at_last wait_for_process_exit
  kill_at_last-Ending seen pid log h =
      holds_then (Ending pid) (send_signal host pid sigkill log) _
        (send_signal-Ending seen pid sigkill log h)
        λ answer l1 k1.
          holds_then (Ending pid) (kill_result answer, l1) _ k1
            λ _ l2 k2.
              holds_then (Ending pid) (wait_for_process_exit host pid 2000 l2) _
                (wait_turns-Ending pid (host.turns l2 2000) l2 k2)
                λ gone l3 k3.
                  if_elim {A = Recovering String} (λ m. Ending pid (m l3).1) gone _ _ (λ _. k3)
                    (λ _. k3)

  after_sigterm-Ending :
      SeenStale host codex_bin socket_path
      → (pid : ℕ) (answer : KillAnswer) (log : Log) → Ending pid log
      → Ending pid (after_sigterm host pid answer log).1
  unfolding after_sigterm wait_for_process_exit
  after_sigterm-Ending seen pid no_such_process log h = h
  after_sigterm-Ending seen pid kill_refused log h = h
  after_sigterm-Ending seen pid kill_done log h =
      holds_then (Ending pid) (wait_for_process_exit host pid 5000 log) _
        (wait_turns-Ending pid (host.turns log 5000) log h)
        λ gone l k.
          if_elim {A = Recovering String} (λ m. Ending pid (m l).1) gone (give "sigterm")
            (kill_at_last host pid) (λ _. k) (λ _. kill_at_last-Ending seen pid l k)

  pub terminate_process-Ending :
      SeenStale host codex_bin socket_path
      → (pid : ℕ) (log : Log) → Ending pid log
      → Ending pid (terminate_process host pid log).1
  unfolding terminate_process
  terminate_process-Ending seen pid log h =
      holds_then (Ending pid) (send_signal host pid sigterm log) _
        (send_signal-Ending seen pid sigterm log h)
        (λ answer l k. after_sigterm-Ending seen pid answer l k)
