-- ===== src/Session/File/Laws.antt =====
-- How reading a session file ends, for every file.
use apf_ue4ss.Prelude.{String, true, false, Option, none, some, ◌≡◌, ◌⊎◌, In}
use apf_ue4ss.Prelude.Dict.{int_eq, string_eq}
use apf_ue4ss.Types.{SessionState}
use apf_ue4ss.Types.Json.{JsonOps, JsonLaws}
use apf_ue4ss.Session.{StateManager}
use apf_ue4ss.Session.File.{
  FileOps, Reading, good, json_error, stoll_error, count_entries, from_json, returned, escaped,
  load_file,
}
use apf_ue4ss.Session.File.Kept.{FileLaws, Kept}

-- A reading that throws an exception of `std::stoll` only with a reason of type `B`.
data Blames {A : Type 0} (B : Type 0) : Reading A → Type 0 where
  reads : (a : A) → Blames B (good a)
  refuses : Blames B json_error
  blames : B → Blames B stoll_error

module _ {J : Type 0} ⦃ops : JsonOps J⦄ (laws : JsonLaws ops) (file : FileOps J)
    (file_laws : FileLaws file) where
  -- A key of the counts of a document that `std::stoll` refuses.
  abbrev pub BadKey : J → Type 0
  BadKey j =
      (key : String) × (val : J) × In (key, val) (count_entries file j) × (file.stoll key ≡ none)

  -- How `load_state` ends for a file: it answers false exactly for one that is missing, empty or no
  -- JSON or has a member of a wrong type, takes the session of one that reads, and an exception
  -- leaves it only for a key of the counts that `std::stoll` refuses.
  abbrev pub Ends : StateManager → Option (Option J) → Type 0
  Ends m doc =
      ((load_file file m doc ≡ returned m false)
        × ((doc ≡ none)
            ⊎ ((doc ≡ some none)
                ⊎ ((j : J) × (doc ≡ some (some j)) × (from_json file j ≡ json_error)))))
      ⊎ (((load_file file m doc ≡ escaped m) × ((j : J) × (doc ≡ some (some j)) × BadKey j))
          ⊎ ((j : J) × (t : SessionState) × (doc ≡ some (some j))
              × (from_json file j ≡ good t)
              × (load_file file m doc ≡ returned (record m { state = t; loaded = true }) true)))
