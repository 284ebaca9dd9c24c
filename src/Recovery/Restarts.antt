-- ===== src/Recovery/Restarts.antt =====
-- The restarts and signals of the recovery as a whole (agent_keepalive/providers/codex_recovery.py,
-- recover_stale_socket and ensure_current_codex_app_server).
use agent_keepalive.Prelude.{
  List, String, [], ap, false, go_on, holds_known, holds_lift, holds_then, if_elim, if_elim_not,
  inl, inr, is_zero, ok, refl, ℕ, ◌∙◌, ◌∷◌, ◌≡◌,
}
use agent_keepalive.Recovery.{
  Host, Log, Recovering, connected_to, listed_processes, listed_sockets, ran_command,
  run_codex_command,
}
use agent_keepalive.Recovery.Flow.{
  CodexAppServerState, act_on, after_restart, ensure_current_codex_app_server, other_socket,
  probe_socket_app_server_version, probed, read_daemon_version, recover_stale_socket, refresh_state,
  restart_args, says_unmanaged, still_stale, stop_and_retry, version_args,
}
use agent_keepalive.Recovery.Listener.{
  find_codex_listener_pid, inodes_of, listeners, match_listener, only_match, socket_inodes,
  terminate_process,
}
use agent_keepalive.Recovery.Signals.{
  AllWarranted, Refused, SeenStale, Warranted, terminate_process-Ending,
}
use agent_keepalive.Recovery.Versions.{
  CodexDaemonVersion, VersionState, classify_version_state, current, expected_codex_version, stale,
  validate_daemon_socket_version,
}

module _ (host : Host) (codex_bin socket_path : String) where
  run_restart-AllWarranted :
      SeenStale host codex_bin socket_path
      → (log : Log) → AllWarranted host codex_bin socket_path log
      → AllWarranted host codex_bin socket_path (run_codex_command host restart_args log).1
  unfolding run_codex_command AllWarranted Warranted
  run_restart-AllWarranted seen log all = (inr (refl, seen), all)

  read_daemon_version-AllWarranted :
      (log : Log)
      → AllWarranted host codex_bin socket_path log
      → AllWarranted host codex_bin socket_path (read_daemon_version host codex_bin log).1
  unfolding read_daemon_version run_codex_command AllWarranted Warranted
  read_daemon_version-AllWarranted log all =
      holds_lift (AllWarranted host codex_bin socket_path) (host.run log version_args)
        (ran_command version_args ∷ log) _ (inl refl, all) (λ _ _. (inl refl, all))

  probe-AllWarranted :
      (log : Log)
      → AllWarranted host codex_bin socket_path log
      → AllWarranted host codex_bin socket_path
          (probe_socket_app_server_version host socket_path log).1
  unfolding probe_socket_app_server_version AllWarranted Warranted
  probe-AllWarranted log all = (tt, all)

  -- What follows once the listener has been looked for among the processes.
  only_match-AllWarranted :
      SeenStale host codex_bin socket_path
      → (pids : List ℕ) (log : Log) (rest : ℕ → Recovering String)
      → AllWarranted host codex_bin socket_path log
      → ((pid : ℕ) → pids ≡ pid ∷ [] → AllWarranted host codex_bin socket_path (rest pid log).1)
      → AllWarranted host codex_bin socket_path
          (go_on rest (only_match host socket_path pids, log)).1
  unfolding only_match
  only_match-AllWarranted seen [] log rest all next = all
  only_match-AllWarranted seen (pid ∷ []) log rest all next = next pid refl
  only_match-AllWarranted seen (pid ∷ other ∷ pids) log rest all next = all

  match_listener-AllWarranted :
      SeenStale host codex_bin socket_path
      → (inodes : List String) (log : Log) (rest : ℕ → Recovering String)
      → AllWarranted host codex_bin socket_path log
      → ((pid : ℕ)
          → listeners host inodes (host.processes log) ≡ pid ∷ []
          → AllWarranted host codex_bin socket_path (rest pid (listed_processes ∷ log)).1)
      → AllWarranted host codex_bin socket_path
          (go_on rest (match_listener host socket_path inodes log)).1
  unfolding match_listener AllWarranted Warranted
  match_listener-AllWarranted seen [] log rest all next = all
  match_listener-AllWarranted seen (inode ∷ inodes) log rest all next =
      only_match-AllWarranted seen (listeners host (inode ∷ inodes) (host.processes log))
        (listed_processes ∷ log) rest (tt, all) next

  stop_and_retry-AllWarranted :
      SeenStale host codex_bin socket_path
      → (before : Log) → Refused host before
      → AllWarranted host codex_bin socket_path (ran_command restart_args ∷ before)
      → AllWarranted host codex_bin socket_path
          (stop_and_retry host codex_bin socket_path (ran_command restart_args ∷ before)).1
  unfolding stop_and_retry find_codex_listener_pid socket_inodes AllWarranted Warranted
  stop_and_retry-AllWarranted seen before said all =
      let AW : Log → Type 0 = AllWarranted host codex_bin socket_path in
      let log : Log = listed_sockets ∷ ran_command restart_args ∷ before in
      let inodes = inodes_of socket_path (host.unix_table (ran_command restart_args ∷ before)) in
      match_listener-AllWarranted seen inodes log _ (tt, all)
        (λ pid only.
          holds_then AW (terminate_process host pid (listed_processes ∷ log)) _
            (terminate_process-Ending host codex_bin socket_path seen pid (listed_processes ∷ log) (
              (tt, (tt, all)),
              (listed_processes ∷ listed_sockets ∷ [], before, refl, said, only),
            )).0
            (λ termination l k.
              holds_then AW (run_codex_command host restart_args l) _
                (run_restart-AllWarranted seen l k) (λ result l2 k2. k2)))

  recover_stale_socket-AllWarranted :
      SeenStale host codex_bin socket_path
      → (log : Log) → AllWarranted host codex_bin socket_path log
      → AllWarranted host codex_bin socket_path
          (recover_stale_socket host codex_bin socket_path log).1
  unfolding recover_stale_socket run_codex_command after_restart
  recover_stale_socket-AllWarranted seen log all =
      let AW : Log → Type 0 = AllWarranted host codex_bin socket_path in
      let now : Log = ran_command restart_args ∷ log in
      let restarted = run_restart-AllWarranted seen log all in
      let P : Recovering String → Type 0 = λ m. AW (m now).1 in
      holds_lift AW (host.run log restart_args) now _ restarted λ result ended.
        if_elim {A = Recovering String} P (is_zero result.returncode) _ _ (λ _. restarted)
          (λ _.
            if_elim_not {A = Recovering String} P (says_unmanaged host result) _ _ (λ _. restarted)
              (λ said. stop_and_retry-AllWarranted seen log (result, ended, said) restarted))

  refresh_state-AllWarranted :
      (action : String) (log : Log)
      → AllWarranted host codex_bin socket_path log
      → AllWarranted host codex_bin socket_path
          (refresh_state host codex_bin socket_path action log).1
  unfolding refresh_state
  refresh_state-AllWarranted action log all =
      let AW : Log → Type 0 = AllWarranted host codex_bin socket_path in
      holds_then AW (read_daemon_version host codex_bin log) _
        (read_daemon_version-AllWarranted log all)
        λ daemon l1 k1.
          holds_then AW (expected_codex_version host daemon, l1) _ k1
            λ expected l2 k2.
              holds_then AW (probe_socket_app_server_version host socket_path l2) _
                (probe-AllWarranted l2 k2)
                λ actual l3 k3.
                  holds_then AW (validate_daemon_socket_version host daemon socket_path actual, l3)
                    _ k3
                    λ _ l4 k4.
                      holds_then AW (classify_version_state host actual expected, l4) _ k4
                        λ state l5 k5.
                          holds_then AW (still_stale socket_path expected actual state, l5) _ k5
                            (λ _ l6 k6. k6)

  act_on-AllWarranted :
      (daemon : CodexDaemonVersion) (expected actual : String) (state : VersionState) (log : Log)
      → (state ≡ stale
          → other_socket daemon socket_path ≡ false
          → SeenStale host codex_bin socket_path)
      → AllWarranted host codex_bin socket_path log
      → AllWarranted host codex_bin socket_path
          (act_on host codex_bin socket_path daemon expected actual state log).1
  unfolding act_on
  act_on-AllWarranted daemon expected actual current log seen all = all
  act_on-AllWarranted daemon expected actual stale log seen all =
      let AW : Log → Type 0 = AllWarranted host codex_bin socket_path in
      if_elim {A = Recovering CodexAppServerState} (λ m. AW (m log).1)
        (other_socket daemon socket_path) _ _ (λ _. all)
        (λ same.
          holds_then AW (recover_stale_socket host codex_bin socket_path log) _
            (recover_stale_socket-AllWarranted (seen refl same) log all)
            (λ action l k. refresh_state-AllWarranted action l k))

  -- Whatever the system answers, everything that ensure_current_codex_app_server does is warranted by
  -- what came before: the daemon is restarted only once the server on this socket was seen to be older
  -- than the expected version and the daemon did not answer for another socket; a process is signalled
  -- only if, besides, a restart said that the server is not managed and the process was after it the
  -- only one that holds a socket bound to the path and looks like a Codex server.
  pub ensure_current-AllWarranted :
      AllWarranted host codex_bin socket_path
        (ensure_current_codex_app_server host codex_bin socket_path []).1
  unfolding ensure_current_codex_app_server probe_socket_app_server_version AllWarranted Warranted
  ensure_current-AllWarranted =
      let AW : Log → Type 0 = AllWarranted host codex_bin socket_path in
      let l1 : Log = connected_to socket_path ∷ [] in
      holds_lift AW (probed host socket_path (host.connect [] socket_path)) l1 _ (tt, tt)
        λ actual probed_as.
          holds_known AW (read_daemon_version host codex_bin l1) _
            (read_daemon_version-AllWarranted l1 (tt, tt))
            λ daemon l2 read_as all.
              holds_lift AW (expected_codex_version host daemon) l2 _ all λ expected expected_as.
                holds_lift AW (validate_daemon_socket_version host daemon socket_path actual) l2 _
                  all
                  λ _ _.
                    holds_lift AW (classify_version_state host actual expected) l2 _ all
                      λ state classified.
                        act_on-AllWarranted daemon expected actual state l2
                          (λ is_stale same. (
                            actual,
                            daemon,
                            expected,
                            probed_as,
                            read_as,
                            expected_as,
                            classified ∙ ap ok is_stale,
                            same,
                          ))
                          all
