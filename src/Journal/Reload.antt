-- ===== src/Journal/Reload.antt =====
-- `Open` of agent/internal/journal/journal.go: the journal that it returns.
use mathlib.Core.Path.{subst}
use vps_tool.Prelude.{
  ℕ, ◌≤◌, ◌≡◌, refl, sym, inl, inr, Bool-cases, Option-cases, Bool, ◌||◌, String, str_eq, arith,
  length, ltb, pos, eq_ℤ, lookup,
}
use vps_tool.Common.{Bytes, Result, ok, err}
use vps_tool.Journal.Entries.{FileData, Codec, Journal, rebuild_index}
use vps_tool.Journal.Disk.{decode}
use vps_tool.Journal.Store.{
  opened, load, load_decoded, check_mode, open_content, open_file, open_journal, fresh_journal,
  FileRead, missing, unreadable, content, FileStat,
}
use vps_tool.Journal.Index.{position}
use vps_tool.Journal.Trim.{rebuild-IsIndexed}
use vps_tool.Journal.Record.{IsWellFormed}
use vps_tool.Journal.Loading.{index_entries-Accepted}

module _ (max_entries max_bytes : ℕ) (room : 1 ≤ max_entries) (space : 1024 ≤ max_bytes) where
  load-IsWellFormed :
      (d : FileData) (k : Journal)
      → load (fresh_journal max_entries max_bytes) d ≡ opened k
      → IsWellFormed k
  unfolding load
  load-IsWellFormed d k h = elim (Bool-cases (eq_ℤ d.version (pos 1))) [
    | inr other ↦ cc (rw other at h)
    | inl one ↦ elim (Bool-cases (ltb max_entries (length d.entries))) [
      | inl long ↦ cc (rw (one, long) at h)
      | inr short ↦
          let j : Journal = record (fresh_journal max_entries max_bytes) {
            version = d.version;
            entries = d.entries;
          } in
          let a = index_entries-Accepted 0 d.entries j k (rw (one, short) at h) in
          subst IsWellFormed (sym a.result) (record {
            is_indexed = unfold rebuild_index in rebuild-IsIndexed j a.unique a.completed;
            version_one = ground arith;
            room = room;
            space = space;
            bounded = ground arith;
          })
    ]
  ]

  load_decoded-IsWellFormed :
      (r : Result FileData) (k : Journal)
      → load_decoded (fresh_journal max_entries max_bytes) r ≡ opened k
      → IsWellFormed k
  unfolding load_decoded
  load_decoded-IsWellFormed (err x) k h = cc
  load_decoded-IsWellFormed (ok d) k h = load-IsWellFormed d k h

  open_content-IsWellFormed :
      (codec : Codec) (windows : Bool) (stat : FileStat) (bytes : Bytes) (k : Journal)
      → open_content codec windows stat bytes (fresh_journal max_entries max_bytes) ≡ opened k
      → IsWellFormed k
  unfolding open_content
  open_content-IsWellFormed codec windows stat bytes k h =
      elim (Option-cases (check_mode windows stat)) [
        | inr (x, bad) ↦ cc (rw (bad, open_content) at h)
        | inl fine ↦ elim (Bool-cases (ltb max_bytes (length bytes))) [
          | inl big ↦ cc (rw (fine, open_content, big) at h)
          | inr small ↦
              load_decoded-IsWellFormed (decode codec bytes) k (rw (fine, open_content, small) at h)
        ]
      ]

fresh-IsWellFormed :
    (max_entries max_bytes : ℕ)
    → 1 ≤ max_entries
    → 1024 ≤ max_bytes
    → IsWellFormed (fresh_journal max_entries max_bytes)
unfolding lookup position
fresh-IsWellFormed max_entries max_bytes r s = record {
  is_indexed = record { indexed = λ k. refl; unique = tt; completed = tt };
  version_one = refl;
  room = r;
  space = s;
  bounded = omega arith;
}

read-IsWellFormed :
    (codec : Codec) (windows : Bool) (max_entries max_bytes : ℕ) (file : FileRead) (stat : FileStat)
    (k : Journal)
    → 1 ≤ max_entries
    → 1024 ≤ max_bytes
    → open_file codec windows stat file (fresh_journal max_entries max_bytes) ≡ opened k
    → IsWellFormed k
unfolding open_file
read-IsWellFormed codec windows max_entries max_bytes missing stat k r s h =
    subst IsWellFormed (cc) (fresh-IsWellFormed max_entries max_bytes r s)
read-IsWellFormed codec windows max_entries max_bytes unreadable stat k r s h = cc
read-IsWellFormed codec windows max_entries max_bytes (content bytes) stat k r s h =
    open_content-IsWellFormed max_entries max_bytes r s codec windows stat bytes k h

-- Whatever the file holds, a journal that Open returns satisfies the invariant of Record.
pub open_journal-IsWellFormed :
    (codec : Codec) (windows : Bool) (path : String) (max_entries max_bytes : ℕ) (file : FileRead)
    (stat : FileStat) (k : Journal)
    → open_journal codec windows path max_entries max_bytes file stat ≡ opened k
    → IsWellFormed k
unfolding open_journal
open_journal-IsWellFormed codec windows path max_entries max_bytes file stat k h =
    elim (Bool-cases (str_eq path "")) [
      | inl bad ↦ cc (rw bad at h)
      | inr good ↦ elim (Bool-cases (ltb max_entries 1 || ltb max_bytes 1024)) [
        | inl low ↦ cc (rw (good, low) at h)
        | inr enough ↦
            read-IsWellFormed codec windows max_entries max_bytes file stat k (ground arith)
              (ground arith) (rw (good, enough) at h)
      ]
    ]
