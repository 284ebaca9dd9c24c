-- ===== src/Recovery/Listener.antt =====
-- Finding the process that listens on a socket, and ending it
-- (agent_keepalive/providers/codex_recovery.py, find_codex_listener_pid and terminate_process).
use agent_keepalive.Prelude.{
  Bool, List, Nothing, Option, Result, String, Text, [], code, codes, contains, err, false, give,
  if◌then◌else◌, int_eq, leb, lift, nat_eq, none, not, ok, os_error, pair_eq, pos, raise,
  recovery_error, some, string_eq, suc, text_append, text_eq, true, zero, ℕ, ◌&&◌, ◌-◌, ◌==◌, ◌>>>◌,
  ◌||◌, ◌∷◌,
}
use agent_keepalive.Recovery.{
  Host, KillAnswer, ProcDir, Recovering, Signal, asked_for, fstring, has_prefix, kill_done,
  kill_refused, listed_processes, listed_sockets, no_such_process, show_int, sigkill, signalled,
  sigterm, strip,
}
use agent_keepalive.Recovery.Versions.{int_of_digits}
use agent_keepalive.TimeParse.{is_digit, is_space}

-- The pieces of `text.split(maxsplit=n)`, from between two words or inside one; once `n` words have
-- been taken, what is left is one piece.
unfoldable pub split_from : ℕ → Option String → String → List String
split_from n none String.[] = []
split_from n (some word) String.[] = word ∷ []
split_from n none (String.◌∷◌ c s) =
    let rest = split_from n (if is_space (code c) then none else some (String.◌∷◌ c "")) s in
    if not (is_space (code c)) && n == 0 then String.◌∷◌ c s ∷ [] else rest
split_from n (some word) (String.◌∷◌ c s) =
    let rest =
      split_from (if is_space (code c) then n - 1 else n)
        (if is_space (code c) then none else some (text_append word (String.◌∷◌ c ""))) s in
    if is_space (code c) then word ∷ rest else rest

-- `parts[-1]` and `parts[-2]` of a line with eight parts.
unfoldable pub socket_of_parts : List String → Option (String × String)
socket_of_parts (_ ∷ _ ∷ _ ∷ _ ∷ _ ∷ _ ∷ inode ∷ path ∷ []) = some (inode, path)
socket_of_parts _ = none

-- The inodes of the lines of /proc/net/unix whose path is the one wanted.
unfoldable pub inodes_of : (wanted : String) → List String → List String
inodes_of wanted [] = []
inodes_of wanted (line ∷ lines) =
    let rest = inodes_of wanted lines in
    elim (socket_of_parts (split_from 7 none (strip line))) [
      | none ↦ rest
      | some (inode, path) ↦ if path == wanted then inode ∷ rest else rest
    ]

unfoldable pub socket_inodes : Host → String → Recovering (List String)
socket_inodes host socket_path log =
    (ok (inodes_of socket_path (host.unix_table log)), listed_sockets ∷ log)

unfoldable pub drop_chars : ℕ → String → String
drop_chars zero s = s
drop_chars (suc n) String.[] = ""
drop_chars (suc n) (String.◌∷◌ c s) = drop_chars n s

-- text[:-1]
unfoldable pub all_but_last : String → String
all_but_last String.[] = ""
all_but_last (String.◌∷◌ c s) =
    let rest = all_but_last s in if s == "" then "" else String.◌∷◌ c rest

-- `target.startswith("socket:[") and target[8:-1] in inodes`
unfoldable pub is_socket_of : List String → String → Bool
is_socket_of inodes target =
    has_prefix (codes "socket:[") (codes target)
    && contains inodes (all_but_last (drop_chars 8 target))

unfoldable pub has_socket_inode : List (Option String) → List String → Bool
has_socket_inode [] inodes = false
has_socket_inode (none ∷ targets) inodes = has_socket_inode targets inodes
has_socket_inode (some target ∷ targets) inodes =
    is_socket_of inodes target || has_socket_inode targets inodes

unfoldable pub looks_like_codex_listener : Host → List String → Bool
looks_like_codex_listener host [] = false
looks_like_codex_listener host (program ∷ arguments) =
    host.path_name program == "codex"
    && (contains (program ∷ arguments) "app-server" && contains (program ∷ arguments) "--listen")

-- str.isdigit on ASCII.
unfoldable pub all_digits : Text → Bool
all_digits [] = true
all_digits (c ∷ s) = is_digit c && all_digits s

unfoldable pub is_number : String → Bool
is_number name = not (name == "") && all_digits (codes name)

-- The body of the loop over /proc: a folder that is the listener's. An OSError passes it over.
unfoldable pub is_listener : Host → List String → ProcDir → Bool
is_listener host inodes proc = is_number proc.proc_name && elim proc.fd_targets [
  | none ↦ false
  | some targets ↦
      has_socket_inode targets inodes
      && elim proc.cmdline [ none ↦ false | some cmdline ↦ looks_like_codex_listener host cmdline ]
]

unfoldable pub listeners : Host → List String → List ProcDir → List ℕ
listeners host inodes [] = []
listeners host inodes (proc ∷ procs) =
    let rest = listeners host inodes procs in
    if is_listener host inodes proc then int_of_digits proc.proc_name ∷ rest else rest

-- sorted(matches)
unfoldable pub insert_pid : ℕ → List ℕ → List ℕ
insert_pid pid [] = pid ∷ []
insert_pid pid (other ∷ pids) =
    let rest = insert_pid pid pids in if leb pid other then pid ∷ other ∷ pids else other ∷ rest

unfoldable pub sort_pids : List ℕ → List ℕ
sort_pids [] = []
sort_pids (pid ∷ pids) = insert_pid pid (sort_pids pids)

-- ", ".join(str(pid) for pid in pids)
unfoldable pub join_pids : Host → List ℕ → List String
join_pids host [] = []
join_pids host (pid ∷ []) = show_int host (pos pid) ∷ []
join_pids host (pid ∷ other ∷ pids) = show_int host (pos pid) ∷ ", " ∷ join_pids host (other ∷ pids)

unfoldable pub only_match : Host → String → List ℕ → Result ℕ
only_match host socket_path [] = err (
    recovery_error
      (fstring ("found no codex app-server listener process holding socket " ∷ socket_path ∷ [])))
only_match host socket_path (pid ∷ []) = ok pid
only_match host socket_path (pid ∷ other ∷ pids) = err (
    recovery_error (
      fstring (
        "found multiple codex app-server listener candidates for "
        ∷ socket_path
        ∷ ": "
        ∷ join_pids host (sort_pids (pid ∷ other ∷ pids)))))

unfoldable pub match_listener : Host → String → List String → Recovering ℕ
match_listener host socket_path [] log = (
  err (recovery_error (fstring ("could not find unix socket inode for " ∷ socket_path ∷ []))),
  log,
)
match_listener host socket_path (inode ∷ inodes) log = (
  only_match host socket_path (listeners host (inode ∷ inodes) (host.processes log)),
  listed_processes ∷ log,
)

unfoldable pub find_codex_listener_pid : Host → String → Recovering ℕ
find_codex_listener_pid host socket_path =
    socket_inodes host socket_path >>> match_listener host socket_path

-- os.kill(pid, 0): a process that may not be signalled exists.
unfoldable pub does_exist : KillAnswer → Bool
does_exist kill_done = true
does_exist no_such_process = false
does_exist kill_refused = true

unfoldable pub process_exists : Host → ℕ → Recovering Bool
process_exists host pid log = (ok (does_exist (host.exists log pid)), asked_for pid ∷ log)

-- The loop of wait_for_process_exit, over the turns that the clock leaves it.
unfoldable pub wait_turns : Host → ℕ → (turns : ℕ) → Recovering Bool
wait_turns host pid zero = process_exists host pid >>> λ there. give (not there)
wait_turns host pid (suc turns) =
    process_exists host pid >>> λ there. if not there then give true else wait_turns host pid turns

unfoldable pub wait_for_process_exit : Host → ℕ → (timeout : ℕ) → Recovering Bool
wait_for_process_exit host pid timeout log = wait_turns host pid (host.turns log timeout) log

-- os.kill(pid, signal), with what it raises.
unfoldable pub kill_result : KillAnswer → Result Nothing
kill_result kill_done = ok tt
kill_result no_such_process = err (os_error (some 3) "No such process")
kill_result kill_refused = err (os_error (some 1) "Operation not permitted")

unfoldable pub send_signal : Host → ℕ → Signal → Recovering KillAnswer
send_signal host pid signal log = (ok (host.kill log pid signal), signalled pid signal ∷ log)

unfoldable pub kill_at_last : Host → ℕ → Recovering String
kill_at_last host pid = send_signal host pid sigkill >>> λ answer.
    lift (kill_result answer) >>> λ _. wait_for_process_exit host pid 2000 >>> λ gone.
    if gone
    then give "sigkill"
    else raise (
        recovery_error (
          fstring (
            "stale codex app-server listener pid "
            ∷ show_int host (pos pid)
            ∷ " did not exit after SIGKILL"
            ∷ [])))

unfoldable pub after_sigterm : Host → ℕ → KillAnswer → Recovering String
after_sigterm host pid no_such_process = give "already_exited"
after_sigterm host pid kill_refused = raise (os_error (some 1) "Operation not permitted")
after_sigterm host pid kill_done = wait_for_process_exit host pid 5000 >>> λ gone.
    if gone then give "sigterm" else kill_at_last host pid

unfoldable pub terminate_process : Host → ℕ → Recovering String
terminate_process host pid = send_signal host pid sigterm >>> after_sigterm host pid
