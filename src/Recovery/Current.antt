-- ===== src/Recovery/Current.antt =====
-- The versions that a server is compared by (agent_keepalive/providers/codex_recovery.py,
-- classify_version_state and ensure_current_codex_app_server).
use agent_keepalive.Prelude.{
  Bool-cases, Exception, Gives, Result, Result-cases, String, ap, arith, err, if_elim,
  if◌then◌else◌, inl, inr, ok, refl, sym, true, value_lift, value_then, value_use, ◌∙◌, ◌∷◌, ◌≡◌,
  ◌≢◌, ◌⊎◌,
}
use agent_keepalive.Recovery.{Host, Log, Recovering, connected_to, ran_command, run_codex_command}
use agent_keepalive.Recovery.Flow.{
  CodexAppServerState, act_on, ensure_current_codex_app_server, other_socket,
  probe_socket_app_server_version, probed, read_daemon_version, recover_stale_socket, refresh_state,
  state_of, still_stale, version_args,
}
use agent_keepalive.Recovery.Versions.{
  CodexDaemonVersion, VersionKey, VersionState, classify_version_state, current,
  expected_codex_version, key_beq, key_ltb, stale, validate_daemon_socket_version, version_key,
}

-- Two texts whose versions are the same.
abbrev pub SameVersion : Host → String → String → Type 0
SameVersion host a b =
    (key : VersionKey) × (version_key host a ≡ ok key) × (version_key host b ≡ ok key)

key_beq_sound : (a b : VersionKey) → key_beq a b ≡ true → a ≡ b
unfolding key_beq
key_beq_sound (a, b, c) (d, e, f) h =
    let first_same : a ≡ d = ground arith in
    let second_same : b ≡ e = ground arith in
    let third_same : c ≡ f = ground arith in rw (first_same, second_same, third_same)

stale_not_current : stale ≢ current
stale_not_current e = cc

err_not_current : {e : Exception} → ◌≢◌ {A = Result VersionState} (err e) (ok current)
err_not_current h = cc

same_or_raised :
    (a b : VersionKey) (e : Exception)
    → (if key_beq a b then ok current else if key_ltb a b then ok stale else err e) ≡ ok current
    → a ≡ b
same_or_raised a b e h = elim (Bool-cases (key_beq a b)) [
  | inl same ↦ key_beq_sound a b same
  | inr other ↦ absurd (
      if_elim (λ r. r ≢ ok current) (key_ltb a b) (ok stale) (err e) (λ _ x. cc) (λ _ x. cc)
        (sym (ap (λ t. if t then ok current else if key_ltb a b then ok stale else err e) other)
          ∙ h))
]

-- The classification with the two keys given.
classified_current :
    (host : Host) (actual expected : String) (ra rb : Result VersionKey)
    → version_key host actual ≡ ra
    → version_key host expected ≡ rb
    → classify_version_state host actual expected ≡ ok current
    → SameVersion host actual expected
unfolding classify_version_state
classified_current host actual expected (err e) rb ha hb h = absurd (err_not_current (simp ha at h))
classified_current host actual expected (ok a) (err e) ha hb h =
    absurd (err_not_current (simp (ha, hb) at h))
classified_current host actual expected (ok a) (ok b) ha hb h =
    let same = same_or_raised a b _ (simp (ha, hb) at h) in (a, ha, hb ∙ ap ok (sym same))

classify_version_state-current :
    (host : Host) (actual expected : String)
    → classify_version_state host actual expected ≡ ok current
    → SameVersion host actual expected
unfolding classify_version_state
classify_version_state-current host actual expected h =
    classified_current host actual expected (version_key host actual) (version_key host expected)
      refl refl h

still_stale-current :
    (socket_path expected actual : String) (state : VersionState)
    → still_stale socket_path expected actual state ≡ ok tt
    → state ≡ current
unfolding still_stale
still_stale-current socket_path expected actual current h = refl
still_stale-current socket_path expected actual stale h = cc

read_daemon_version-log :
    (host : Host) (codex_bin : String) (log : Log)
    → (read_daemon_version host codex_bin log).1 ≡ ran_command version_args ∷ log
unfolding read_daemon_version run_codex_command
read_daemon_version-log host codex_bin log = elim (Result-cases (host.run log version_args)) [
  | inl (result, e) ↦ rw e refl
  | inr (x, e) ↦ rw e refl
]

-- Where the two versions of the state come from: the actual one from a probe of the socket, after
-- which nothing was done but asking the daemon; the expected one from an answer of the daemon that
-- was asked next to it. They are the same.
abbrev pub Reported : Host → (codex_bin socket_path : String) → CodexAppServerState → Log → Type 0
Reported host codex_bin socket_path s log =
    (before : Log) × (asked : Log) × (daemon : CodexDaemonVersion) × ((log
        ≡ ran_command version_args ∷ connected_to socket_path ∷ before)
      ⊎ (log ≡ connected_to socket_path ∷ ran_command version_args ∷ asked))
    × ((asked ≡ connected_to socket_path ∷ before) ⊎ (before ≡ ran_command version_args ∷ asked))
    × (probed host socket_path (host.connect before socket_path) ≡ ok s.actual_version)
    × ((read_daemon_version host codex_bin asked).0 ≡ ok daemon)
    × (expected_codex_version host daemon ≡ ok s.expected_version)
    × SameVersion host s.actual_version s.expected_version

refresh_state-Reported :
    (host : Host) (codex_bin socket_path action : String) (log : Log)
    → Gives
        (Reported host codex_bin socket_path)
        (refresh_state host codex_bin socket_path action log)
unfolding refresh_state probe_socket_app_server_version state_of
refresh_state-Reported host codex_bin socket_path action log =
    let P : CodexAppServerState → Log → Type 0 = Reported host codex_bin socket_path in
    value_then P (read_daemon_version host codex_bin log) _ λ daemon l1 read_as.
      value_lift P (expected_codex_version host daemon) _ l1 λ expected expected_as.
        value_lift P (probed host socket_path (host.connect l1 socket_path)) _
          (connected_to socket_path ∷ l1)
          λ actual probed_as.
            value_lift P (validate_daemon_socket_version host daemon socket_path actual) _
              (connected_to socket_path ∷ l1)
              λ _ _.
                value_lift P (classify_version_state host actual expected) _
                  (connected_to socket_path ∷ l1)
                  λ state classified.
                    value_lift P (still_stale socket_path expected actual state) _
                      (connected_to socket_path ∷ l1)
                      λ done is_done.
                        let l1_is =
                          sym (ap (λ r. r.1) read_as)
                          ∙ read_daemon_version-log host codex_bin log in
                        (
                          l1,
                          log,
                          daemon,
                          inr (ap (λ l. connected_to socket_path ∷ l) l1_is),
                          inr l1_is,
                          probed_as,
                          ap (λ r. r.0) read_as,
                          expected_as,
                          classify_version_state-current host actual expected (
                              classified
                              ∙ ap ok
                                  (still_stale-current socket_path expected actual state is_done)),
                        )

act_on-Reported :
    (host : Host) (codex_bin socket_path : String) (daemon : CodexDaemonVersion)
    (expected actual : String) (state : VersionState) (before log : Log)
    → log ≡ ran_command version_args ∷ connected_to socket_path ∷ before
    → probed host socket_path (host.connect before socket_path) ≡ ok actual
    → (read_daemon_version host codex_bin (connected_to socket_path ∷ before)).0 ≡ ok daemon
    → expected_codex_version host daemon ≡ ok expected
    → classify_version_state host actual expected ≡ ok state
    → Gives
        (Reported host codex_bin socket_path)
        (act_on host codex_bin socket_path daemon expected actual state log)
unfolding act_on state_of
act_on-Reported host codex_bin socket_path daemon expected actual current before log done probed_as
      read_as expected_as classified =
    (
      before,
      connected_to socket_path ∷ before,
      daemon,
      inl done,
      inl refl,
      probed_as,
      read_as,
      expected_as,
      classify_version_state-current host actual expected classified,
    )
act_on-Reported host codex_bin socket_path daemon expected actual stale before log done probed_as
      read_as expected_as classified =
    let P : CodexAppServerState → Log → Type 0 = Reported host codex_bin socket_path in
    if_elim {A = Recovering CodexAppServerState} (λ m. Gives P (m log))
      (other_socket daemon socket_path) _ _ (λ _. tt)
      (λ _.
        value_then P (recover_stale_socket host codex_bin socket_path log) _
          λ action l _. refresh_state-Reported host codex_bin socket_path action l)

-- Whatever the system answers, when ensure_current_codex_app_server returns a state, its actual
-- version is what a probe of the socket found, made after everything else that was done but asking
-- the daemon; its expected version is that of the daemon's answer, asked right before or after this
-- probe; and the two are the same version.
pub ensure_current-SameVersion :
    (host : Host) (codex_bin socket_path : String) (log : Log) (s : CodexAppServerState)
    → (ensure_current_codex_app_server host codex_bin socket_path log).0 ≡ ok s
    → Reported host codex_bin socket_path s
        (ensure_current_codex_app_server host codex_bin socket_path log).1
unfolding ensure_current_codex_app_server probe_socket_app_server_version
ensure_current-SameVersion host codex_bin socket_path log s h =
    let P : CodexAppServerState → Log → Type 0 = Reported host codex_bin socket_path in
    let l1 : Log = connected_to socket_path ∷ log in
    value_use P (ensure_current_codex_app_server host codex_bin socket_path log) s h (
      value_lift P (probed host socket_path (host.connect log socket_path)) _ l1 λ actual probed_as.
        value_then P (read_daemon_version host codex_bin l1) _ λ daemon l2 read_as.
          value_lift P (expected_codex_version host daemon) _ l2 λ expected expected_as.
            value_lift P (validate_daemon_socket_version host daemon socket_path actual) _ l2 λ _ _.
              value_lift P (classify_version_state host actual expected) _ l2 λ state classified.
                act_on-Reported host codex_bin socket_path daemon expected actual state log l2
                  (sym (ap (λ r. r.1) read_as) ∙ read_daemon_version-log host codex_bin l1)
                  probed_as (ap (λ r. r.0) read_as) expected_as classified)
