-- ===== src/Store.antt =====
-- src/agent_keepalive/state.py: the folder of keeper records, as the list of its files. `Files` is
-- what stands on disk, JSON objects; `Records` is what they stand for, and Store/Refine.antt shows
-- that the operations agree. Writing a file is atomic, since `os.replace` is.
pub mod Laws
pub mod Refine
pub mod Others
use agent_keepalive.Json.{Fields}
use agent_keepalive.Paths.{keeper_state_name}
use agent_keepalive.Prelude.{
  Bool, Dict, List, Option, Result, String, Text, [], false, if◌then◌else◌, int_eq, int_ltb, lookup,
  ltb, nat_eq, none, ok, pair_eq, pos, put, remove, some, string_eq, text_eq, true, ℤ, ◌&&◌, ◌==◌,
  ◌>>=◌, ◌||◌, ◌∷◌,
}
use agent_keepalive.Python.{Python}
use agent_keepalive.Record.{KeeperRecord, from_dict, to_dict, touch}

abbrev pub Files : Type 0
Files = Dict Text Fields

abbrev pub Records : Type 0
Records = Dict Text KeeperRecord

-- path.exists() and the order of `sorted` on file names.
unfoldable pub text_leb : Text → Text → Bool
text_leb [] t = true
text_leb (c ∷ s) [] = false
text_leb (c ∷ s) (d ∷ t) = ltb c d || (c == d && text_leb s t)

module _ {ℓ} {V : Type ℓ} where
  unfoldable pub insert_sorted : Text × V → Dict Text V → Dict Text V
  insert_sorted e [] = e ∷ []
  insert_sorted e (f ∷ d) =
      let rest = insert_sorted e d in if text_leb e.0 f.0 then e ∷ f ∷ d else f ∷ rest

  unfoldable pub sort_files : Dict Text V → Dict Text V
  unfolding insert_sorted
  sort_files [] = []
  sort_files (e ∷ d) = insert_sorted e (sort_files d)

-- `provider is None or record.provider == provider`
unfoldable pub is_from : Option String → KeeperRecord → Bool
is_from none r = true
is_from (some provider) r = r.provider == provider

-- The operations on disk.
module _ (py : Python) where
  unfoldable pub save_file : String → KeeperRecord → Files → KeeperRecord × Files
  save_file now r files =
      let touched = touch now r in
      (touched, put (keeper_state_name touched.provider touched.target_id) (to_dict touched) files)

  unfoldable pub load_file : String → String → Files → Result (Option KeeperRecord)
  load_file provider target_id files = elim (lookup (keeper_state_name provider target_id) files) [
    | none ↦ ok none
    | some dict ↦ (do r ← from_dict py dict; ok (some r))
  ]

  -- The loop of `list`, over the sorted files.
  unfoldable pub read_files : Option String → Files → Result (List KeeperRecord)
  read_files provider [] = ok []
  read_files provider ((name, dict) ∷ files) = do
    r ← from_dict py dict
    rest ← read_files provider files
    ok (if is_from provider r then r ∷ rest else rest)

  unfoldable pub list_files : Option String → Files → Result (List KeeperRecord)
  list_files provider files = read_files provider (sort_files files)

unfoldable pub remove_file : String → String → Files → Files
remove_file provider target_id files = remove (keeper_state_name provider target_id) files

-- The same operations on the records themselves.
unfoldable pub save : String → KeeperRecord → Records → Records
save now r records = put (keeper_state_name r.provider r.target_id) (touch now r) records

unfoldable pub load : String → String → Records → Option KeeperRecord
load provider target_id records = lookup (keeper_state_name provider target_id) records

unfoldable pub remove_record : String → String → Records → Records
remove_record provider target_id records = remove (keeper_state_name provider target_id) records

unfoldable pub select_records : Option String → Records → List KeeperRecord
select_records provider [] = []
select_records provider ((name, r) ∷ records) =
    let rest = select_records provider records in if is_from provider r then r ∷ rest else rest

unfoldable pub list_records : Option String → Records → List KeeperRecord
list_records provider records = select_records provider (sort_files records)

-- What os.kill(pid, 0) answers.
pub data Probe : Type 0 where
  delivered no_process not_permitted : Probe

unfoldable pub process_is_alive : (ℤ → Probe) → ℤ → Bool
process_is_alive kill pid =
    if int_ltb (pos 0) pid
    then elim (kill pid) [ delivered ↦ true | no_process ↦ false | not_permitted ↦ true ]
    else false

-- cli.remove_stale_records
unfoldable pub remove_dead : (ℤ → Probe) → List KeeperRecord → Records → Records
remove_dead kill [] records = records
remove_dead kill (r ∷ rs) records =
    remove_dead kill rs (
      if process_is_alive kill r.pid then records else remove_record r.provider r.target_id records)

unfoldable pub remove_stale_records : (ℤ → Probe) → Records → Records
unfolding remove_dead
remove_stale_records kill records = remove_dead kill (list_records none records) records
