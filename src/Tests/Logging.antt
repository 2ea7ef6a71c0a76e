-- ===== src/Tests/Logging.antt =====
-- `Logger`.
use cwusb.Base.{◌≡◌, refl, true, false, [], ◌∷◌, codes, equal}
use cwusb.Logger.Levels.{Level}
use cwusb.Logger.{on_screen, in_file, make, init, set_log_to_screen, log}
use cwusb.Logger.Output.{log-init}

log-init_example :
    log
      (set_log_to_screen (init make Level.info true (codes "a.txt") false) true)
      (codes "hello")
      Level.warning
    ≡ on_screen (codes "hello") ∷ in_file (codes "a.txt") (codes "hello") ∷ []
unfolding make equal
log-init_example = log-init make Level.info (codes "a.txt") (codes "hello") Level.warning refl refl
