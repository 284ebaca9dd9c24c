-- ===== src/Store/Refine.antt =====
-- src/agent_keepalive/state.py: the store on disk refines the list of records.
use agent_keepalive.Paths.{keeper_state_name}
use agent_keepalive.Prelude.{
  Option, Option-cases, String, Text, [], ap, arith, inl, inr, int_eq, lookup, map, nat_eq, ok,
  pair_eq, put, refl, remove, string_eq, text_eq, ◌∷◌, ◌≡◌,
}
use agent_keepalive.Python.{Python}
use agent_keepalive.Record.{KeeperRecord, to_dict, touch}
use agent_keepalive.Record.RoundTrip.{from_dict-to_dict}
use agent_keepalive.Store.{
  Files, Records, insert_sorted, list_files, list_records, load, load_file, read_files, remove_file,
  remove_record, save, save_file, select_records, sort_files,
}
use mathlib.Core.Option

-- src/agent_keepalive/state.py: the store on disk refines the list of records.
-- The files that records are written to.
abbrev pub encode : Records → Files
encode = map (λ e. (e.0, to_dict e.1))

put-encode :
    (name : Text) (r : KeeperRecord) (records : Records)
    → put name (to_dict r) (encode records) ≡ encode (put name r records)
unfolding put
put-encode name r [] = refl
put-encode name r ((n, s) ∷ records) = ground (arith, put-encode name r records)

remove-encode :
    (name : Text) (records : Records) → remove name (encode records) ≡ encode (remove name records)
unfolding remove
remove-encode name [] = refl
remove-encode name ((n, s) ∷ records) = ground (arith, remove-encode name records)

lookup-encode :
    (name : Text) (records : Records)
    → lookup name (encode records) ≡ Option.map to_dict (lookup name records)
unfolding lookup
lookup-encode name [] = refl
lookup-encode name ((n, s) ∷ records) = ground (arith, lookup-encode name records)

insert_sorted-encode :
    (e : Text × KeeperRecord) (records : Records)
    → insert_sorted (e.0, to_dict e.1) (encode records) ≡ encode (insert_sorted e records)
unfolding insert_sorted
insert_sorted-encode e [] = refl
insert_sorted-encode e (f ∷ records) = ground (arith, insert_sorted-encode e records)

sort_files-encode : (records : Records) → sort_files (encode records) ≡ encode (sort_files records)
unfolding sort_files
sort_files-encode [] = refl
sort_files-encode (e ∷ records) =
    rw (sort_files-encode records) (insert_sorted-encode e (sort_files records))

module _ (py : Python) where
  -- Loading from the files gives the record that the store holds under that name, and never fails.
  load_file-encode :
      (provider target_id : String) (records : Records)
      → load_file py provider target_id (encode records) ≡ ok (load provider target_id records)
  unfolding load_file load
  load_file-encode provider target_id records =
      elim (Option-cases (lookup (keeper_state_name provider target_id) records)) [
        | inl e ↦ ground (arith, lookup-encode (keeper_state_name provider target_id) records)
        | inr (r, e) ↦ ground (
          arith,
          lookup-encode (keeper_state_name provider target_id) records,
          from_dict-to_dict py r,
        )
      ]

  read_files-encode :
      (provider : Option String) (records : Records)
      → read_files py provider (encode records) ≡ ok (select_records provider records)
  unfolding read_files select_records
  read_files-encode provider [] = refl
  read_files-encode provider ((n, r) ∷ records) =
      rw (from_dict-to_dict py r, read_files-encode provider records)

  -- Each operation on the files that records are written to is the operation on the records:
  -- reading, listing with or without a provider, saving and removing. None of them fails.
  pub store_refines :
      (now : String) (provider : Option String) (p t : String) (r : KeeperRecord)
      (records : Records)
      → (load_file py p t (encode records) ≡ ok (load p t records))
        × (list_files py provider (encode records) ≡ ok (list_records provider records))
        × (save_file py now r (encode records) ≡ (touch now r, encode (save now r records)))
        × (remove_file p t (encode records) ≡ encode (remove_record p t records))
  unfolding list_files list_records save_file save remove_file remove_record touch
  store_refines now provider p t r records = (
    load_file-encode p t records,
    rw (sort_files-encode records) (read_files-encode provider (sort_files records)),
    ap (λ files. (touch now r, files))
        (put-encode (keeper_state_name r.provider r.target_id) (touch now r) records),
    remove-encode (keeper_state_name p t) records,
  )
