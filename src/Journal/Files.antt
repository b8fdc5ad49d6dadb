-- ===== src/Journal/Files.antt =====
-- `persistLocked` of agent/internal/journal/journal.go on the file system: what a success puts into
-- the file, and what a failure, at whichever call, leaves there.
use vps_tool.Prelude.{
  ◌≤◌, ◌≡◌, refl, ◌⊎◌, inl, inr, Bool-cases, Option-cases, false, none, some, arith, length, ltb,
}
use vps_tool.Common.{Bytes}
use vps_tool.Journal.Entries.{Codec, Journal, file_data}
use vps_tool.Journal.Disk.{Disk, Outcomes, PersistError, persist_bytes, persist}

-- The bytes that the file must hold after a success: the indented encoding, within the limit.
pub record Written (codec : Codec) (j : Journal) (d : Disk) : Type 0 where
  pub bytes : Bytes
  pub encoded : codec.marshal_indent (file_data j) ≡ some bytes
  pub fits : length bytes ≤ j.max_bytes
  pub in_file : d.target ≡ some bytes
  pub no_leftover : d.temporary ≡ none

module _ (codec : Codec) (o : Outcomes) (j : Journal) (d : Disk) where
  persist_bytes_done :
      (bytes : Bytes)
      → (persist_bytes o bytes d).1 ≡ none
      → ((persist_bytes o bytes d).0.target ≡ some bytes)
        × ((persist_bytes o bytes d).0.temporary ≡ none)
  unfolding persist_bytes
  persist_bytes_done bytes h = ground arith

  -- A `persistLocked` that succeeds has put the indented encoding of the whole journal into the file,
  -- at most `max_bytes` of it, and no temporary file is left.
  pub persist_done : (persist codec o j d).1 ≡ none → Written codec j (persist codec o j d).0
  unfolding persist
  persist_done = elim (Option-cases (codec.marshal_indent (file_data j))) [
    | inl bad ↦ rw (bad, persist) (λ h. cc)
    | inr (bytes, e) ↦
        rw (e, persist)
          (elim (Bool-cases (ltb j.max_bytes (length bytes))) [
            | inl big ↦ rw big (λ h. cc)
            | inr small ↦ rw small (λ h.
                let (t, l) = persist_bytes_done bytes h in
                record {
                  bytes = bytes;
                  encoded = e;
                  fits = ground arith;
                  in_file = t;
                  no_leftover = l;
                })
          ])
  ]

  -- The one way to lose the file: both renames fail, and between them the file was removed.
  abbrev pub Lost : Type 0
  Lost = (o.rename ≡ false) × (o.rename_again ≡ false) × ((persist codec o j d).0.target ≡ none)

  persist_bytes_failed :
      (bytes : Bytes) (x : PersistError)
      → (persist_bytes o bytes d).1 ≡ some x
      → ((persist_bytes o bytes d).0.target ≡ d.target)
        ⊎ ((o.rename ≡ false)
            × (o.rename_again ≡ false)
            × ((persist_bytes o bytes d).0.target ≡ none))
  unfolding persist_bytes
  persist_bytes_failed bytes x h = ground arith

  -- A persistLocked that fails, at whichever call, leaves the old file in place, unless both
  -- renames fail after the old file was removed: then there is no file.
  pub persist_failed :
      (x : PersistError)
      → (persist codec o j d).1 ≡ some x
      → ((persist codec o j d).0.target ≡ d.target) ⊎ Lost
  unfolding persist
  persist_failed x = elim (Option-cases (codec.marshal_indent (file_data j))) [
    | inl bad ↦ rw (bad, persist) (λ h. inl refl)
    | inr (bytes, e) ↦
        rw (e, persist)
          (elim (Bool-cases (ltb j.max_bytes (length bytes))) [
            | inl big ↦ rw big (λ h. inl refl)
            | inr small ↦ rw small (λ h. persist_bytes_failed bytes x h)
          ])
  ]
