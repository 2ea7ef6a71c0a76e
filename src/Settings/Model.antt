-- ===== src/Settings/Model.antt =====
-- `SettingsModel`: the settings, and how they are written to a file and read from it.
use cwusb.Base.{
  ℕ, ◌+◌, ◌-◌, Bool, true, false, List, [], ◌∷◌, ◌++◌, Option, none, some, Bytes, codes, equal,
  length, take, drop, find, ok, err, ◌==◌, if◌then◌else◌,
}
use cwusb.Logger.Levels.{
  Level, default_log_level, convert_log_level_to_string, convert_log_level_string_to_level,
}
use cwusb.Settings.Numbers.{to_string, stoi, is_space}

pub data EngineStatus : Type 0 where
  idle running error : EngineStatus

pub data Command : Type 0 where
  start_engine stop_engine save_settings no_command : Command

pub record Settings : Type 0 where
  pub log_level : Level
  pub xlink_ip : Bytes
  pub xlink_port : Bytes
  pub max_buffered_messages : ℕ
  pub max_fatal_retries : ℕ
  pub max_read_write_retries : ℕ
  pub read_time_out_ms : ℕ
  pub write_time_out_ms : ℕ
  pub engine_status : EngineStatus
  pub command : Command

abbrev pub defaults : Settings
defaults = record {
  log_level = default_log_level;
  xlink_ip = codes "127.0.0.1";
  xlink_port = codes "34523";
  max_buffered_messages = 1000;
  max_fatal_retries = 5000;
  max_read_write_retries = 5000;
  read_time_out_ms = 2;
  write_time_out_ms = 2;
  engine_status = idle;
  command = no_command;
}

abbrev pub bool_to_string : Bool → Bytes
bool_to_string true = codes "true"
bool_to_string false = codes "false"

abbrev pub string_to_bool : Bytes → Bool
string_to_bool text = equal text (codes "true")

abbrev pub save_log_level : Bytes
save_log_level = codes "LogLevel"

abbrev pub save_xlink_ip : Bytes
save_xlink_ip = codes "XLinkIp"

abbrev pub save_xlink_port : Bytes
save_xlink_port = codes "XLinkPort"

abbrev pub save_max_buffered_messages : Bytes
save_max_buffered_messages = codes "MaxBuffer"

abbrev pub save_max_fatal_retries : Bytes
save_max_fatal_retries = codes "MaxRetriesAfterFatalError"

abbrev pub save_max_read_write_retries : Bytes
save_max_read_write_retries = codes "MaxRetriesWhenReadWriteFailed"

abbrev pub save_read_time_out_ms : Bytes
save_read_time_out_ms = codes "MaxReadTimeoutMS"

abbrev pub save_write_time_out_ms : Bytes
save_write_time_out_ms = codes "MaxWriteTimeoutMS"

-- A value between its quotes.
abbrev pub quoted : Bytes → Bytes
quoted value = 34 ∷ (value ++ (34 ∷ []))

-- `lFile << key << ": \"" << value << "\"" << std::endl`
abbrev pub line : Bytes → Bytes → Bytes
line key value = (key ++ (b':' ∷ 32 ∷ quoted value)) ++ (10 ∷ [])

-- What is written to the file.
unfoldable pub save_text : Settings → Bytes
save_text m =
    line save_log_level (convert_log_level_to_string m.log_level)
    ++ (line save_xlink_ip m.xlink_ip
        ++ (line save_xlink_port m.xlink_port
            ++ (line save_max_buffered_messages (to_string m.max_buffered_messages)
                ++ (line save_max_fatal_retries (to_string m.max_fatal_retries)
                    ++ (line save_max_read_write_retries (to_string m.max_read_write_retries)
                        ++ (line save_read_time_out_ms (to_string m.read_time_out_ms)
                            ++ (line save_write_time_out_ms (to_string m.write_time_out_ms)
                                ++ [])))))))

-- `SaveToFile`: what the file holds then, if it could be opened, and whether all went well; `good`
-- is the stream's state after it was closed.
unfoldable pub save_to_file : Settings → Bool → Bool → Option Bytes × Bool
save_to_file m opens good = if opens then (some (save_text m), good) else (none, false)

-- The lines that end in a newline; `getline` reaches the end of the file in any other, and that is
-- not looked at.
abbrev pub lines : Bytes → Bytes → List Bytes
lines current [] = []
lines current (c ∷ text) = elim (c == 10) [
  | true ↦ current ∷ lines [] text
  | false ↦ lines (current ++ (c ∷ [])) text
]

-- `lLine.erase(remove_if(…, isspace), …)`
abbrev pub without_space : Bytes → Bytes
without_space [] = []
without_space (c ∷ s) = let rest = without_space s in if is_space c then rest else c ∷ rest

-- `lResult.substr(1, lResult.size() - 2)` of a text that is not empty. A count below zero only
-- comes with a text of one byte, where nothing is left.
abbrev pub unquote : Bytes → Bytes
unquote result = take (length result - 2) (drop 1 result)

-- A number that `std::stoi` throws on leaves the setting as it is.
abbrev pub number_or : ℕ → Bytes → ℕ
number_or old result = elim (stoi (unquote result)) [ ok n ↦ n | err f ↦ old ]

unfoldable pub set_option : Settings → Bytes → Bytes → Settings
set_option m option result =
    if equal option save_log_level
    then record m { log_level = convert_log_level_string_to_level (unquote result) }
    else if equal option save_xlink_ip
    then record m { xlink_ip = unquote result }
    else if equal option save_xlink_port
    then record m { xlink_port = unquote result }
    else if equal option save_max_buffered_messages
    then record m { max_buffered_messages = number_or m.max_buffered_messages result }
    else if equal option save_max_fatal_retries
    then record m { max_fatal_retries = number_or m.max_fatal_retries result }
    else if equal option save_max_read_write_retries
    then record m { max_read_write_retries = number_or m.max_read_write_retries result }
    else if equal option save_read_time_out_ms
    then record m { read_time_out_ms = number_or m.read_time_out_ms result }
    else if equal option save_write_time_out_ms
    then record m { write_time_out_ms = number_or m.write_time_out_ms result }
    else m

-- The option and its text: `npos + 1` is 0, so without a colon both are the line.
abbrev pub split_option : Bytes → Bytes × Bytes
split_option s = elim (find b':' s) [ none ↦ (s, s) | some i ↦ (take i s, drop (i + 1) s) ]

-- One line of the file.
unfoldable pub load_line : Settings → Bytes → Settings
load_line m s =
    let (option, result) = split_option (without_space s) in
    if equal result [] then m else set_option m option result

abbrev pub load_lines : Settings → List Bytes → Settings
load_lines m [] = m
load_lines m (s ∷ rest) = load_lines (load_line m s) rest

unfoldable pub load_text : Settings → Bytes → Settings
load_text m text = load_lines m (lines [] text)

-- `LoadFromFile`; `none` is a file that can not be opened. Reading a file that is open is taken not
-- to fail, so it ends at the end of the file.
unfoldable pub load_from_file : Settings → Option Bytes → Settings × Bool
load_from_file m none = (m, false)
load_from_file m (some text) = (load_text m text, true)
