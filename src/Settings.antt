-- ===== src/Settings.antt =====
-- Sources/SettingsModel.cpp: the settings, saved to a file's text and loaded from it.
pub mod Numbers
pub mod Model
pub mod Decimal
pub mod Lines
pub mod RoundTrip
pub mod Unfinished
