-- ===== src/Settings/RoundTrip.antt =====
-- `SettingsModel::SaveToFile` and `LoadFromFile`, one after the other.
use cwusb.Base.{ℕ, ◌^◌, ◌<◌, ◌≡◌, refl, ap, ◌∙◌, Bool, true, [], ◌++◌, Bytes, equal, arith}
use cwusb.Logger.Levels.{
  Level, level_text, trace, debug, info, warning, convert_log_level_to_string,
  convert_log_level_string_to_level, convert_log_level_string_to_level-text,
}
use cwusb.Logger.Levels
use cwusb.Settings.Numbers.{to_string}
use cwusb.Settings.Decimal.{stoi-to_string}
use cwusb.Settings.Model.{
  Settings, quoted, line, number_or, set_option, save_log_level, save_xlink_ip, save_xlink_port,
  save_max_buffered_messages, save_max_fatal_retries, save_max_read_write_retries,
  save_read_time_out_ms, save_write_time_out_ms, save_text, save_to_file, load_text, load_from_file,
}
use cwusb.Settings.Lines.{avoids, is_plain, is_plain-to_string, unquote-quoted, load_text-line}

-- The numbers are `int`s, and the two texts have no spaces and newlines.
pub record IsSavable (m : Settings) : Type 0 where
  pub ip : is_plain m.xlink_ip ≡ true
  pub port : is_plain m.xlink_port ≡ true
  pub buffered : m.max_buffered_messages < 2 ^ 32
  pub fatal : m.max_fatal_retries < 2 ^ 32
  pub read_write : m.max_read_write_retries < 2 ^ 32
  pub read : m.read_time_out_ms < 2 ^ 32
  pub write : m.write_time_out_ms < 2 ^ 32

-- What is saved of `m`, with the rest of `d`.
abbrev pub loaded : Settings → Settings → Settings
loaded d m = record m { engine_status = d.engine_status; command = d.command }

is_plain-level : (level : Level) → is_plain (convert_log_level_to_string level) ≡ true
unfolding convert_log_level_to_string
is_plain-level Levels.trace = refl
is_plain-level Levels.debug = refl
is_plain-level Levels.info = refl
is_plain-level Levels.warning = refl
is_plain-level Levels.error = refl

number_or-to_string : (old w : ℕ) → w < 2 ^ 32 → number_or old (quoted (to_string w)) ≡ w
number_or-to_string old w h = ground (arith, unquote-quoted (to_string w), stoi-to_string w h)

-- A line whose option is set as `d'` says.
load_option :
    (d d' : Settings) (key value rest : Bytes)
    → is_plain key ≡ true
    → avoids b':' key ≡ true
    → is_plain value ≡ true
    → set_option d key (quoted value) ≡ d'
    → load_text d (line key value ++ rest) ≡ load_text d' rest
load_option d d' key value rest k colon v set =
    load_text-line d key value rest k colon v ∙ ap (λ x. load_text x rest) set

load_text-nil : (d : Settings) → load_text d [] ≡ d
unfolding load_text
load_text-nil d = refl

-- The lines that `SaveToFile` writes, one by one.
module _ (d : Settings) (rest : Bytes) where
  load_log_level :
      (level : Level)
      → load_text d (line save_log_level (convert_log_level_to_string level) ++ rest)
        ≡ load_text (record d { log_level = level }) rest
  unfolding set_option equal
  load_log_level level =
      let text = convert_log_level_to_string level in
      load_option d _ save_log_level text rest refl refl (is_plain-level level) (
        ap (λ t. record d { log_level = convert_log_level_string_to_level t }) (unquote-quoted text)
        ∙ ap (λ l. record d { log_level = l }) (convert_log_level_string_to_level-text level))

  module _ (text : Bytes) (plain : is_plain text ≡ true) where
    load_xlink_ip :
        load_text d (line save_xlink_ip text ++ rest)
        ≡ load_text (record d { xlink_ip = text }) rest
    unfolding set_option equal
    load_xlink_ip =
        load_option d _ save_xlink_ip text rest refl refl plain
          (ap (λ t. record d { xlink_ip = t }) (unquote-quoted text))

    load_xlink_port :
        load_text d (line save_xlink_port text ++ rest)
        ≡ load_text (record d { xlink_port = text }) rest
    unfolding set_option equal
    load_xlink_port =
        load_option d _ save_xlink_port text rest refl refl plain
          (ap (λ t. record d { xlink_port = t }) (unquote-quoted text))

  module _ (w : ℕ) (word : w < 2 ^ 32) where
    load_max_buffered_messages :
        load_text d (line save_max_buffered_messages (to_string w) ++ rest)
        ≡ load_text (record d { max_buffered_messages = w }) rest
    unfolding set_option equal
    load_max_buffered_messages =
        load_option d _ save_max_buffered_messages (to_string w) rest refl refl
          (is_plain-to_string w)
          (ap (λ n. record d { max_buffered_messages = n })
            (number_or-to_string d.max_buffered_messages w word))

    load_max_fatal_retries :
        load_text d (line save_max_fatal_retries (to_string w) ++ rest)
        ≡ load_text (record d { max_fatal_retries = w }) rest
    unfolding set_option equal
    load_max_fatal_retries =
        load_option d _ save_max_fatal_retries (to_string w) rest refl refl (is_plain-to_string w) (
          ap (λ n. record d { max_fatal_retries = n })
            (number_or-to_string d.max_fatal_retries w word))

    load_max_read_write_retries :
        load_text d (line save_max_read_write_retries (to_string w) ++ rest)
        ≡ load_text (record d { max_read_write_retries = w }) rest
    unfolding set_option equal
    load_max_read_write_retries =
        load_option d _ save_max_read_write_retries (to_string w) rest refl refl
          (is_plain-to_string w)
          (ap (λ n. record d { max_read_write_retries = n })
            (number_or-to_string d.max_read_write_retries w word))

    load_read_time_out_ms :
        load_text d (line save_read_time_out_ms (to_string w) ++ rest)
        ≡ load_text (record d { read_time_out_ms = w }) rest
    unfolding set_option equal
    load_read_time_out_ms =
        load_option d _ save_read_time_out_ms (to_string w) rest refl refl (is_plain-to_string w) (
          ap (λ n. record d { read_time_out_ms = n })
            (number_or-to_string d.read_time_out_ms w word))

    load_write_time_out_ms :
        load_text d (line save_write_time_out_ms (to_string w) ++ rest)
        ≡ load_text (record d { write_time_out_ms = w }) rest
    unfolding set_option equal
    load_write_time_out_ms =
        load_option d _ save_write_time_out_ms (to_string w) rest refl refl (is_plain-to_string w) (
          ap (λ n. record d { write_time_out_ms = n })
            (number_or-to_string d.write_time_out_ms w word))

load_text-save_text : (d m : Settings) → IsSavable m → load_text d (save_text m) ≡ loaded d m
unfolding save_text
load_text-save_text d m v =
    load_log_level d _ m.log_level
    ∙ load_xlink_ip _ _ m.xlink_ip v.ip
    ∙ load_xlink_port _ _ m.xlink_port v.port
    ∙ load_max_buffered_messages _ _ m.max_buffered_messages v.buffered
    ∙ load_max_fatal_retries _ _ m.max_fatal_retries v.fatal
    ∙ load_max_read_write_retries _ _ m.max_read_write_retries v.read_write
    ∙ load_read_time_out_ms _ _ m.read_time_out_ms v.read
    ∙ load_write_time_out_ms _ [] m.write_time_out_ms v.write
    ∙ load_text-nil _

-- What `SaveToFile` writes, `LoadFromFile` reads back into any settings: every saved setting is as
-- it was, if the numbers are `int`s and the address and the port have no white space; the engine's
-- status and the command stay.
pub load_from_file-save_to_file :
    (d m : Settings) (good : Bool)
    → IsSavable m
    → load_from_file d (save_to_file m true good).0 ≡ (loaded d m, true)
unfolding save_to_file load_from_file
load_from_file-save_to_file d m good v = ap (λ s. (s, true)) (load_text-save_text d m v)
