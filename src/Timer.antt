-- ===== src/Timer.antt =====
-- Includes/Timer.h, Sources/Timer.cpp: `Timer`, which nothing uses.
use cwusb.Base.{ℕ, ◌-◌, ◌/◌, [], ◌∷◌, ◌++◌, Bytes}
use cwusb.Settings.Numbers.{digits_before}

-- `mStartTime` in nanoseconds of the steady clock, and the text in `mLogFile`.
pub record Timer : Type 0 where
  pub start_time : ℕ
  pub log_file : Bytes

abbrev pub new_timer : Timer
new_timer = record { start_time = 0; log_file = [] }

-- `Start`
unfoldable pub start_timer : Timer → ℕ → Timer
start_timer t now = record t { start_time = now }

-- A count of microseconds is below 2^63 and has at most 19 digits.
abbrev pub microseconds : ℕ → Bytes
microseconds nanoseconds = digits_before 19 (nanoseconds / 1000) []

-- `Stop`: the steady clock does not go back. All lines so far are printed again.
unfoldable pub stop_timer : Timer → Bytes → ℕ → Timer × Bytes
stop_timer t name now =
    let text = t.log_file ++ (name ++ (b',' ∷ (microseconds (now - t.start_time) ++ (10 ∷ [])))) in
    (record t { log_file = text }, text)
