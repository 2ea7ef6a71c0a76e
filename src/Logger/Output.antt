-- ===== src/Logger/Output.antt =====
-- What is written of the messages of a logger.
use cwusb.Base.{
  ◌≡◌, Bool, true, false, [], ◌∷◌, none, some, Bytes, equal, leb, if◌then◌else◌, arith,
}
use cwusb.Logger.Levels.{Level, level_number}
use cwusb.Logger.{
  Logger, on_screen, in_file, set_file_name, set_log_level, set_log_to_disk, set_log_to_screen,
  init, to_disk, log,
}

-- A logger without an open file that is set up for the disk with a file name, whose file can be
-- opened, and then for the screen writes each message of at least the level to the screen and to
-- that file, and no other message.
pub log-init :
    (l : Logger) (level : Level) (file_name entry : Bytes) (of : Level)
    → l.stream ≡ none
    → equal file_name [] ≡ false
    → log (set_log_to_screen (init l level true file_name false) true) entry of ≡ (
        if leb (level_number level) (level_number of)
        then on_screen entry ∷ in_file file_name entry ∷ []
        else [])
unfolding log init set_log_to_disk set_file_name set_log_level set_log_to_screen to_disk
log-init l level file_name entry of closed named = ground arith

-- A logger whose file is open keeps it when it is set up for the disk with another name: without
-- the screen, a message of at least the level goes to the first file alone.
pub log-init_again :
    (l : Logger) (level : Level) (first file_name entry : Bytes) (of : Level) (fails : Bool)
    → l.stream ≡ some first
    → leb (level_number level) (level_number of) ≡ true
    → log (set_log_to_screen (init l level true file_name fails) false) entry of
      ≡ in_file first entry ∷ []
unfolding log init set_log_to_disk set_file_name set_log_level set_log_to_screen to_disk
log-init_again l level first file_name entry of fails opened high = ground arith
