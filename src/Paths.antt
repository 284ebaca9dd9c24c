-- ===== src/Paths.antt =====
-- src/agent_keepalive/paths.py: the names of the files of a keeper. Texts are ASCII, so `isalnum`
-- is the ten digits and the letters.
pub mod Names
use agent_keepalive.Prelude.{
  Bool, String, Text, [], codes, if◌then◌else◌, int_eq, leb, nat_eq, pair_eq, string_eq, text_eq, ℕ,
  ◌&&◌, ◌++◌, ◌==◌, ◌||◌, ◌∷◌,
}

unfoldable pub is_alnum : ℕ → Bool
is_alnum c = (leb b'0' c && leb c b'9') || (leb b'A' c && leb c b'Z') || (leb b'a' c && leb c b'z')

-- char.isalnum() or char in "._-"
unfoldable pub is_safe : ℕ → Bool
is_safe c = is_alnum c || c == b'.' || c == b'_' || c == b'-'

unfoldable pub safe_target_id : Text → Text
safe_target_id [] = []
safe_target_id (c ∷ s) = (if is_safe c then c else b'_') ∷ safe_target_id s

-- The name of the state file, in the folder `keepers`.
unfoldable pub keeper_state_name : String → String → Text
keeper_state_name provider target_id =
    codes provider ++ (b'-' ∷ safe_target_id (codes target_id) ++ codes ".json")

-- The name of the log file, in the folder `logs`.
unfoldable pub keeper_log_name : String → String → Text
keeper_log_name provider target_id =
    codes provider ++ (b'-' ∷ safe_target_id (codes target_id) ++ codes ".log")
