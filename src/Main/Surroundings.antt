-- ===== src/Main/Surroundings.antt =====
-- What `main` takes from its surroundings: the program's path, the signals, and the files' names.
use cwusb.Base.{
  ℕ, zero, suc, ◌+◌, ◌≡◌, refl, sym, ap, ◌∙◌, Bool, true, false, not, ◌&&◌, ◌||◌, [], ◌∷◌, ◌++◌,
  append_assoc, Option, none, some, Bytes, length, take, replicate, codes, take_prefix,
  length-append, ◌==◌, if◌then◌else◌,
}
use cwusb.Settings.Model
use cwusb.Settings.Model.{Settings}
use cwusb.Logger
use cwusb.Logger.{Logger}

abbrev pub log_file_name : Bytes
log_file_name = codes "log.txt"

abbrev pub log_to_disk : Bool
log_to_disk = true

abbrev pub config_file_name : Bytes
config_file_name = codes "config.txt"

-- The numbers of the two signals.
abbrev pub sigint : ℕ
sigint = 2

abbrev pub sigterm : ℕ
sigterm = 15

-- `SignalHandler`: what becomes of `gRunning`.
unfoldable pub signal_handler : Bool → ℕ → Bool → Bool
signal_handler error signal running =
    if not error && (signal == sigint || signal == sigterm) then false else running

-- `rfind` of a character; `none` is `npos`.
abbrev pub rfind : ℕ → Bytes → Option ℕ
rfind c [] = none
rfind c (x ∷ xs) = elim (rfind c xs) [
  | some i ↦ some (suc i)
  | none ↦ if x == c then some 0 else none
]

-- The path of the program; `resolved` is the whole array that `realpath` fills, or `none` where it
-- fails.
unfoldable pub program_path : Option Bytes → Bytes
program_path none = codes "./"
program_path (some resolved) = elim (rfind 47 resolved) [
  | none ↦ resolved
  | some index ↦ take (index + 1) resolved
]

abbrev pub NoSlash : Bytes → Type 0
NoSlash [] = Unit {0}
NoSlash (c ∷ cs) = (c == 47 ≡ false) × NoSlash cs

rfind-NoSlash : (cs : Bytes) → NoSlash cs → rfind 47 cs ≡ none
rfind-NoSlash [] p = refl
rfind-NoSlash (c ∷ cs) (p, ps) = rw (rfind-NoSlash cs ps, p)

rfind-last :
    (directory name : Bytes)
    → NoSlash name
    → rfind 47 (directory ++ (47 ∷ name)) ≡ some (length directory)
rfind-last [] name p = rw (rfind-NoSlash name p)
rfind-last (d ∷ directory) name p = rw (rfind-last directory name p)

NoSlash-append : (xs ys : Bytes) → NoSlash xs → NoSlash ys → NoSlash (xs ++ ys)
NoSlash-append [] ys p q = q
NoSlash-append (x ∷ xs) ys (p, ps) q = (p, NoSlash-append xs ys ps q)

NoSlash-zeros : (n : ℕ) → NoSlash (replicate n 0)
NoSlash-zeros zero = tt
NoSlash-zeros (suc n) = (refl, NoSlash-zeros n)

-- The path is the directory of the program with its slash: neither the program's name nor the
-- array's zeros behind it are left.
pub program_path-directory :
    (directory name : Bytes) (zeros : ℕ)
    → NoSlash name
    → program_path (some (directory ++ (47 ∷ (name ++ replicate zeros 0)))) ≡ directory ++ (47 ∷ [])
unfolding program_path
program_path-directory directory name zeros p =
    let rest = name ++ replicate zeros 0 in
    let found : rfind 47 (directory ++ (47 ∷ rest)) ≡ some (length directory) =
      rfind-last directory rest (NoSlash-append name (replicate zeros 0) p (NoSlash-zeros zeros)) in
    rw (found, program_path)
      (ap (take (length directory + 1)) (sym (append_assoc directory (47 ∷ []) rest))
        ∙ take_prefix (directory ++ (47 ∷ [])) rest (length directory + 1)
            (sym (length-append directory (47 ∷ []))))

-- The settings and the logger that `main` starts with; `files` is what the named file holds, and
-- `log_fails` says whether the log's file can not be opened.
unfoldable pub prepare : Option Bytes → (Bytes → Option Bytes) → Bool → Settings × Logger
prepare resolved files log_fails =
    let path = program_path resolved in
    let (settings, loaded) =
      Model.load_from_file Model.defaults (files (path ++ config_file_name)) in
    (
      settings,
      Logger.set_log_to_screen
          (Logger.init Logger.make settings.log_level log_to_disk (path ++ log_file_name) log_fails)
          true,
    )
