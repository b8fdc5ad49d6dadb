-- ===== src/Upgrade/Files.antt =====
-- The file system under the upgrade of agent/cmd/vps-agent-helper/upgrade.go. Whether the n-th call
-- fails is given from outside (Os.outcome), and so are the names and identities of new files. A file
-- keeps its identity under other names, as links do.
use vps_tool.Prelude.{
  ℕ, ◌+◌, ◌≡◌, ◌≢◌, Bool, false, Option, none, some, String, str_eq, eq_iff, ◌==◌, arith,
  if◌then◌else◌,
}
use vps_tool.Common.{Bytes, Error}

pub record File : Type 0 where
  pub node : ℕ
  pub regular : Bool
  pub trusted : Bool
  pub mode : ℕ
  pub content : Bytes

abbrev pub Files : Type 0
Files = String → Option File

-- The files, and the number of calls made.
pub record System : Type 0 where
  pub files : Files
  pub calls : ℕ

-- How a call fails: on a name that is not there, on one that is, or for a reason of its own.
pub data Failure : Type 0 where
  missing : Failure
  present : Failure
  failed : Error → Failure

pub record Os : Type 0 where
  pub outcome : ℕ → Option Error
  pub text : Failure → Error
  pub temp_name : ℕ → String → String
  pub new_node : ℕ → ℕ
  -- What a write that fails leaves of the bytes.
  pub partial : ℕ → Bytes → Bytes

unfoldable pub put_file : String → Option File → Files → Files
put_file p f files q = if str_eq q p then f else files q

pub put_file_at : (p : String) (f : Option File) (files : Files) → put_file p f files p ≡ f
unfolding put_file
put_file_at p f files = ground (arith, eq_iff p p)

pub put_file_apart :
    (p q : String) (f : Option File) (files : Files) → q ≢ p → put_file p f files q ≡ files q
unfolding put_file
put_file_apart p q f files n = ground (arith, eq_iff q p)

abbrev pub called : System → System
called s = record s { calls = s.calls + 1 }

module _ (os : Os) where
  abbrev existing : Option File → Option Failure
  existing none = some missing
  existing (some f) = none

  -- `os.Stat`, and what `os.Lstat` and `os.ReadFile` begin with.
  unfoldable pub stat : String → System → System × Option Failure
  stat p s = elim (os.outcome s.calls) [
    | some e ↦ (called s, some (failed e))
    | none ↦ (called s, existing (s.files p))
  ]

  abbrev pub removed : String → System → Option File → System × Option Failure
  removed p s none = (called s, some missing)
  removed p s (some f) = (record { files = put_file p none s.files; calls = s.calls + 1 }, none)

  unfoldable pub remove : String → System → System × Option Failure
  remove p s = elim (os.outcome s.calls) [
    | some e ↦ (called s, some (failed e))
    | none ↦ removed p s (s.files p)
  ]

  abbrev pub linked : String → System → Option File → Option File → System × Option Failure
  linked new s none there = (called s, some missing)
  linked new s (some f) none =
      (record { files = put_file new (some f) s.files; calls = s.calls + 1 }, none)
  linked new s (some f) (some g) = (called s, some present)

  unfoldable pub link : String → String → System → System × Option Failure
  link old new s = elim (os.outcome s.calls) [
    | some e ↦ (called s, some (failed e))
    | none ↦ linked new s (s.files old) (s.files new)
  ]

  abbrev pub same_node : File → Option File → Bool
  same_node f none = false
  same_node f (some g) = f.node == g.node

  -- Between two names of one file a rename does nothing.
  abbrev pub renamed : String → String → System → Option File → System × Option Failure
  renamed old new s none = (called s, some missing)
  renamed old new s (some f) = if same_node f (s.files new) then (called s, none) else (
    record { files = put_file old none (put_file new (some f) s.files); calls = s.calls + 1 },
    none,
  )

  unfoldable pub rename : String → String → System → System × Option Failure
  rename old new s = elim (os.outcome s.calls) [
    | some e ↦ (called s, some (failed e))
    | none ↦ renamed old new s (s.files old)
  ]
