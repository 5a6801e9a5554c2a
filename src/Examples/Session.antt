-- ===== src/Examples/Session.antt =====
-- The session file at concrete inputs.
use apf_ue4ss.Prelude.{◌+◌, ◌*◌, ◌/◌, String, ◌≡◌, refl, none, List, []}
use apf_ue4ss.Prelude.Int.{ℤ, pos, negsuc}
use apf_ue4ss.Session.File.{FileOps}
use apf_ue4ss.Session.File.Kept.{Kept}
use apf_ue4ss.Examples.Stoll.{stoll}
use apf_ue4ss.Examples.Fixtures.{Doc, d_object, member_list}

abbrev pairs : Doc → List (String × Doc)
pairs (d_object fields) = member_list fields
pairs _ = []

-- A clock of 10000000 ticks in a second.
abbrev whole_seconds : ℤ → ℤ
whole_seconds (pos n) = pos (n / 10000000)
whole_seconds (negsuc n) = negsuc (n / 10000000)

abbrev ticks : ℤ → ℤ
ticks (pos n) = pos (n * 10000000)
ticks (negsuc n) = negsuc (n * 10000000 + 9999999)

abbrev doc_file : FileOps Doc
doc_file = record { entries = pairs; stoll = stoll; to_time_t = whole_seconds; from_time_t = ticks }

-- A key that is no number.
bad_key_test : stoll "sword" ≡ none
bad_key_test = refl
