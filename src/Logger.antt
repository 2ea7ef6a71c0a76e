-- ===== src/Logger.antt =====
-- Sources/Logger.cpp: `Logger`, and where a message goes.
pub mod Levels
pub mod Output
use cwusb.Base.{
  ℕ, Bool, true, false, not, ◌&&◌, ◌||◌, List, [], ◌∷◌, ◌++◌, Option, none, some, Bytes, equal,
  codes, leb, if◌then◌else◌,
}
use cwusb.Logger.Levels.{Level, level_number, error}

-- `stream` is the file that the stream has open.
pub record Logger : Type 0 where
  pub file_name : Bytes
  pub log_level : Level
  pub stream : Option Bytes
  pub log_to_disk : Bool
  pub log_to_screen : Bool

unfoldable pub make : Logger
make = record {
  file_name = codes "log.txt";
  log_level = error;
  stream = none;
  log_to_disk = false;
  log_to_screen = false;
}

-- Where an entry is written.
pub data Entry : Type 0 where
  on_screen : Bytes → Entry
  in_file : Bytes → Bytes → Entry

unfoldable pub set_file_name : Logger → Bytes → Logger
set_file_name l file_name = record l { file_name = file_name }

unfoldable pub get_log_level : Logger → Level
get_log_level l = l.log_level

unfoldable pub set_log_level : Logger → Level → Logger
set_log_level l level = record l { log_level = level }

abbrev pub is_open : Logger → Bool
is_open l = elim l.stream [ none ↦ false | some file ↦ true ]

-- `fails` says whether the file can not be opened, should it be.
unfoldable pub set_log_to_disk : Logger → Bool → Bool → Logger
set_log_to_disk l enabled fails =
    if enabled && (not (is_open l) && not (equal l.file_name []))
    then record l { stream = if fails then none else some l.file_name; log_to_disk = enabled }
    else if not enabled && is_open l
    then record l { stream = none; log_to_disk = enabled }
    else record l { log_to_disk = enabled }

unfoldable pub set_log_to_screen : Logger → Bool → Logger
set_log_to_screen l enabled = record l { log_to_screen = enabled }

unfoldable pub init : Logger → Level → Bool → Bytes → Bool → Logger
init l level to_disk file_name fails =
    set_log_to_disk (set_file_name (set_log_level l level) file_name) to_disk fails

-- The stream of the log's file, if it is to be written.
unfoldable pub to_disk : Logger → Bytes → List Entry
to_disk l entry = elim l.stream [
  | none ↦ []
  | some file ↦ if l.log_to_disk then in_file file entry ∷ [] else []
]

-- `Log`; `entry` is the line with the time, the level's text and the place.
unfoldable pub log : Logger → Bytes → Level → List Entry
log l entry level =
    if leb (level_number l.log_level) (level_number level)
    then (if l.log_to_screen then on_screen entry ∷ [] else []) ++ to_disk l entry
    else []
