-- ===== src/Helper/Backups.antt =====
-- BackupPath of agent/internal/helper/helper.go: the file that a backup is written to is made before,
-- so that nobody else can read it.
use Prim.Native.String.{◌++◌ as str_append}
use vps_tool.Prelude.{Bool, not, ◌||◌, Option, none, some, String, str_eq, ◌==◌, if◌then◌else◌}
use vps_tool.Common.{Error, plain, wrap, Result, ok, err}
use vps_tool.Chars.{alnum, matches_class}

-- What `os.OpenFile` with O_EXCL gives.
pub data Opened : Type 0 where
  created : Opened
  existing : Opened
  failed : Error → Opened

-- The calls of the operating system, on a directory or a file for its owner only, and package filepath.
pub record Storage (W : Type 0) : Type 0 where
  pub mkdir_all : String → W → W × Option Error
  pub open_exclusive : String → W → W × Opened
  pub close : String → W → W × Option Error
  pub chmod : String → W → W × Option Error
  pub dir : String → String
  pub join : String → String → String

-- `^[A-Za-z0-9-]{36,64}$`.
unfoldable pub backup_id : String → Bool
backup_id s = matches_class (λ c. alnum c || (c == b'-')) 36 64 s

module _ {W : Type 0} (storage : Storage W) where
  abbrev pub backup_base : String → String
  backup_base state_path =
      if str_eq state_path ""
      then "/var/lib/vps-agent/xui-backups"
      else storage.join (storage.dir state_path) "xui-backups"

  abbrev protected : String → W × Option Error → W × Result String
  protected p (w, some e) = (w, err (wrap "protect prepared backup file: " e))
  protected p (w, none) = (w, ok p)

  abbrev closed : String → W × Option Error → W × Result String
  closed p (w, some e) = (w, err (wrap "close prepared backup file: " e))
  closed p (w, none) = protected p (storage.chmod p w)

  -- A file that exists is taken as it is.
  abbrev with_file : String → W × Opened → W × Result String
  with_file p (w, failed e) = (w, err (wrap "prepare backup file: " e))
  with_file p (w, existing) = (w, ok p)
  with_file p (w, created) = closed p (storage.close p w)

  abbrev in_directory : String → W × Option Error → W × Result String
  in_directory p (w, some e) = (w, err (wrap "create backup directory: " e))
  in_directory p (w, none) = with_file p (storage.open_exclusive p w)

  unfoldable pub backup_path : String → String → W → W × Result String
  unfolding backup_id
  backup_path state_path id w =
      if not (backup_id id)
      then (w, err (plain "invalid backup id"))
      else in_directory (storage.join (backup_base state_path) (str_append id ".db"))
          (storage.mkdir_all (backup_base state_path) w)
