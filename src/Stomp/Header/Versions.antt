-- ===== src/Stomp/Header/Versions.antt =====
-- `StompVersion` and `get_accept_version` of src/broker/stomp/header.rs.
use grinbox.Prelude.{Option, none, some, List, [], ◌∷◌, if◌then◌else◌}
use grinbox.Prelude.Text.{Text, codes, text_eq, split}
use grinbox.Stomp.Header.{HeaderList, get}
use grinbox.Stomp.Header.Names.{standard, accept_version}
use grinbox.Utils.Hex.{trim}

pub data StompVersion : Type 0 where
  stomp_v1_0 stomp_v1_1 stomp_v1_2 : StompVersion

-- `StompVersion::from_str`
unfoldable pub parse_version : Text → Option StompVersion
parse_version s =
    if text_eq s (codes "1.0")
    then some stomp_v1_0
    else if text_eq s (codes "1.1")
    then some stomp_v1_1
    else if text_eq s (codes "1.2")
    then some stomp_v1_2
    else none

-- the versions among the parts; others are dropped
unfoldable pub parse_versions : List Text → List StompVersion
parse_versions [] = []
parse_versions (s ∷ more) = elim (parse_version (trim s)) [
  | none ↦ parse_versions more
  | some v ↦ v ∷ parse_versions more
]

-- `HeaderList::get_accept_version`
unfoldable pub get_accept_version : HeaderList → Option (List StompVersion)
get_accept_version headers = elim (get headers (standard accept_version)) [
  | none ↦ none
  | some versions ↦ let (first, more) = split b',' versions in some (parse_versions (first ∷ more))
]
