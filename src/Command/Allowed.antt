-- ===== src/Command/Allowed.antt =====
-- What the environment of a Claude keeper may depend on (agent_keepalive/cli.py, child_environment).
use agent_keepalive.Command.Children.{
  Environ, Install, child_environment, claude_environment, get_env, python_path,
}
use agent_keepalive.Prelude.{
  String, ap, int_eq, lookup, nat_eq, none, pair_eq, some, string_eq, text_eq, ◌≡◌,
}

get_env_same :
    (e1 e2 : Environ) (name default : String)
    → lookup name e1 ≡ lookup name e2
    → get_env e1 name default ≡ get_env e2 name default
unfolding get_env
get_env_same e1 e2 name default h = ap (λ o. elim o [ none ↦ default | some v ↦ v ]) h

-- The environment that `agent-keepalive start` gives a keeper of Claude sessions depends on no
-- variable of its own environment but HOME, PATH, LANG and AGENT_KEEPALIVE_LOG_DEST: two environments that
-- agree on these give the same one.
pub child_environment-claude :
    (install : Install) (e1 e2 : Environ)
    → lookup "HOME" e1 ≡ lookup "HOME" e2
    → lookup "PATH" e1 ≡ lookup "PATH" e2
    → lookup "LANG" e1 ≡ lookup "LANG" e2
    → lookup "AGENT_KEEPALIVE_LOG_DEST" e1 ≡ lookup "AGENT_KEEPALIVE_LOG_DEST" e2
    → child_environment install "claude" e1 ≡ child_environment install "claude" e2
unfolding child_environment claude_environment python_path
child_environment-claude install e1 e2 home path lang log_dest = rw (
  get_env_same e1 e2 "HOME" install.home home,
  get_env_same e1 e2 "PATH" "/usr/local/bin:/usr/bin:/bin" path,
  get_env_same e1 e2 "LANG" "C.UTF-8" lang,
  get_env_same e1 e2 "AGENT_KEEPALIVE_LOG_DEST" "" log_dest,
)
