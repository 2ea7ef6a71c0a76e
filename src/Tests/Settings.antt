-- ===== src/Tests/Settings.antt =====
-- `SettingsModel`.
use cwusb.Base.{◌-◌, ◌^◌, ◌≡◌, refl, true, [], ◌∷◌, ◌++◌, some, codes, arith, ok}
use cwusb.Logger.Levels.{Level, convert_log_level_string_to_level}
use cwusb.Settings.Numbers.{digits_before, digits_value, magnitude, to_string, stoi}
use cwusb.Settings.Model.{Settings, defaults, save_to_file, load_from_file}
use cwusb.Settings.RoundTrip.{loaded, load_from_file-save_to_file}
use cwusb.Settings.Unfinished.{load_from_file-unfinished}

-- A retry limit of -1, which is written as such.
abbrev changed : Settings
changed = record defaults {
  log_level = Level.debug;
  xlink_ip = codes "192.168.1.2";
  max_fatal_retries = 2 ^ 32 - 1;
  read_time_out_ms = 40;
}

load_from_file-save_to_file_example :
    load_from_file defaults (save_to_file changed true true).0 ≡ (loaded defaults changed, true)
load_from_file-save_to_file_example = load_from_file-save_to_file defaults changed true (record {
  ip = refl;
  port = refl;
  buffered = omega arith;
  fatal = omega arith;
  read_write = omega arith;
  read = omega arith;
  write = omega arith;
})

negative_number : stoi (to_string (2 ^ 32 - 12)) ≡ ok (2 ^ 32 - 12)
unfolding stoi to_string digits_before magnitude digits_value
negative_number = refl

load_from_file-unfinished_example :
    load_from_file defaults (some (codes "LogLevel: Debug" ++ (10 ∷ codes "XLinkPort: 9")))
    ≡ load_from_file defaults (some (codes "LogLevel: Debug" ++ (10 ∷ [])))
load_from_file-unfinished_example =
    load_from_file-unfinished defaults (codes "LogLevel: Debug") (codes "XLinkPort: 9") refl

-- The empty text is in every level's text.
empty_level : convert_log_level_string_to_level [] ≡ Level.error
unfolding convert_log_level_string_to_level
empty_level = refl
