-- ===== src/Upgrade/Binaries.antt =====
-- The staged binaries of agent/cmd/vps-agent-helper/upgrade.go: prepareBinaryUpdate,
-- commitBinaryUpdates, rollbackBinaryUpdates and cleanupStagedUpdates over the files.
use Prim.Native.String.{◌++◌ as str_append}
use Prim.Native.Nat.{bit_and}
use vps_tool.Prelude.{
  ℕ, ◌+◌, Bool, true, false, ◌&&◌, Option, none, some, List, [], ◌∷◌, String, str_eq, ◌==◌,
  if◌then◌else◌,
}
use vps_tool.Common.{Bytes, Error, plain, wrap, Result, ok, err}
use vps_tool.Texts.{same}
use vps_tool.Upgrade.Files.{
  File, System, Failure, missing, present, failed, Os, put_file, called, stat, remove, link, rename,
}

-- A `binaryUpdate`.
pub record Update : Type 0 where
  pub target : String
  pub temp : String
  pub backup : String
  pub changed : Bool

abbrev pub Step : Type 0
Step = System × Option Error

-- The rest of a function behind `if err != nil { return err }`.
abbrev pub and_then : Step → (System → Step) → Step
and_then (s, some e) rest = (s, some e)
and_then (s, none) rest = rest s

module _ (os : Os) where
  abbrev pub or_error : String → System × Option Failure → Step
  or_error m (s, none) = (s, none)
  or_error m (s, some f) = (s, some (wrap m (os.text f)))

  -- The result of the removal of an old backup, where a missing one is no error.
  abbrev pub or_missing : System × Option Failure → Step
  or_missing (s, none) = (s, none)
  or_missing (s, some missing) = (s, none)
  or_missing (s, some present) = (s, some (wrap "remove previous backup: " (os.text present)))
  or_missing (s, some (failed e)) = (s, some (wrap "remove previous backup: " (os.text (failed e))))

  abbrev pub colon : String → String → String
  colon m p = str_append m (str_append p ": ")

  -- The body of the first loop of `commitBinaryUpdates`.
  unfoldable pub back_up : Update → System → Step
  back_up u s =
      if u.changed
      then and_then (or_missing (remove os u.backup s))
          (λ s'. or_error (colon "backup " u.target) (link os u.target u.backup s'))
      else (s, none)

  unfoldable pub back_up_all : List Update → System → Step
  back_up_all [] s = (s, none)
  back_up_all (u ∷ us) s = and_then (back_up u s) (λ s'. back_up_all us s')

  abbrev pub put_back : Update → System × Option Failure → System
  put_back u (s, some f) = s
  put_back u (s, none) = (rename os u.backup u.target s).0

  unfoldable pub restore : Update → System → System
  restore u s = if u.changed then put_back u (stat os u.backup s) else s

  unfoldable pub roll_back : List Update → System → System
  roll_back [] s = s
  roll_back (u ∷ us) s = roll_back us (restore u s)

  abbrev pub or_roll_back : List Update → Step → Step
  or_roll_back all (s, none) = (s, none)
  or_roll_back all (s, some e) = (roll_back all s, some e)

  -- The body of the second loop, for all the updates that a failure rolls back.
  unfoldable pub activate : List Update → Update → System → Step
  activate all u s =
      if u.changed
      then or_roll_back all (or_error (colon "activate " u.target) (rename os u.temp u.target s))
      else (s, none)

  unfoldable pub activate_all : List Update → List Update → System → Step
  activate_all all [] s = (s, none)
  activate_all all (u ∷ us) s = and_then (activate all u s) (λ s'. activate_all all us s')

  unfoldable pub commit : List Update → System → Step
  commit us s = and_then (back_up_all us s) (λ s'. activate_all us us s')

  unfoldable pub cleanup : List Update → System → System
  cleanup [] s = s
  cleanup (u ∷ us) s = cleanup us (if str_eq u.temp "" then s else (remove os u.temp s).0)

  abbrev pub Prepared : Type 0
  Prepared = System × Result Update

  -- A call on the open temporary file: it fails, or it leaves the file as given.
  abbrev on_temp : String → String → (File → File) → (File → File) → System → Step
  on_temp m p success failure s = elim (s.files p) [
    | none ↦ (called s, none)
    | some f ↦ elim (os.outcome s.calls) [
      | some e ↦ (
        record { files = put_file p (some (failure f)) s.files; calls = s.calls + 1 },
        some (wrap m e),
      )
      | none ↦ (record { files = put_file p (some (success f)) s.files; calls = s.calls + 1 }, none)
    ]
  ]

  abbrev as_it_is : File → File
  as_it_is f = f

  -- `Chmod`, `Write`, `Sync` and `Close` of the temporary file.
  unfoldable pub fill : String → Bytes → System → Step
  fill p bytes s0 =
      and_then
        (on_temp "set staged binary permissions: " p (λ f. record f { mode = 0x1ED }) as_it_is s0)
        (λ s1.
          and_then
            (on_temp "write staged binary: " p (λ f. record f { content = bytes })
              (λ f. record f { content = os.partial s1.calls bytes }) s1)
            (λ s2.
              and_then (on_temp "sync staged binary: " p as_it_is as_it_is s2)
                (λ s3. on_temp "close staged binary: " p as_it_is as_it_is s3)))

  abbrev pub filled : Update → Step → Prepared
  filled u (s, some e) = (s, err e)
  filled u (s, none) = (s, ok (record u { changed = true }))

  abbrev new_file : ℕ → File
  new_file n = record {
    node = os.new_node n;
    regular = true;
    trusted = true;
    mode = 0x180;
    content = [];
  }

  -- `prepareBinaryUpdate` from the creation of the temporary file on.
  unfoldable pub stage : String → Update → Bytes → System → Prepared
  stage dir u bytes s = elim (os.outcome s.calls) [
    | some e ↦ (called s, err (wrap (colon "stage binary " u.target) e))
    | none ↦
        let p = os.temp_name s.calls dir in
        let u' = record u { temp = p } in
        filled u' (
          fill p bytes
            (record { files = put_file p (some (new_file s.calls)) s.files; calls = s.calls + 1 }))
  ]

  -- A regular file of a trusted owner that neither group nor others may write.
  abbrev pub is_installed : File → Bool
  is_installed f = f.regular && (f.trusted && (bit_and f.mode 0x12 == 0))

  abbrev pub unsafe : String → Error
  unsafe p =
      plain (str_append "installed binary " (str_append p " failed ownership or permission checks"))

  -- Behind the reading of the installed binary.
  abbrev pub compared :
      (Bytes → List ℕ) → String → Update → Bytes → File → System × Option Failure → Prepared
  compared sha256 dir u bytes f (s, some e) =
      (s, err (wrap (colon "read installed binary " u.target) (os.text e)))
  compared sha256 dir u bytes f (s, none) =
      if same (sha256 f.content) (sha256 bytes) then (s, ok u) else stage dir u bytes s

  abbrev pub inspected :
      (Bytes → List ℕ) → String → Update → Bytes → System × Option Failure → Option File → Prepared
  inspected sha256 dir u bytes (s, some e) there =
      (s, err (wrap (colon "inspect installed binary " u.target) (os.text e)))
  inspected sha256 dir u bytes (s, none) none =
      (s, err (wrap (colon "inspect installed binary " u.target) (os.text missing)))
  inspected sha256 dir u bytes (s, none) (some f) =
      if is_installed f
      then compared sha256 dir u bytes f (stat os u.target s)
      else (s, err (unsafe u.target))

  -- `dir` is `filepath.Dir(target)`.
  unfoldable pub prepare : (Bytes → List ℕ) → (String → String) → String → Bytes → System → Prepared
  prepare sha256 dir_of target bytes s =
      let u : Update = record {
        target = target;
        temp = "";
        backup = str_append target ".previous";
        changed = false;
      } in
      inspected sha256 (dir_of target) u bytes (stat os target s) (s.files target)
