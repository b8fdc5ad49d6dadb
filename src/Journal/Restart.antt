-- ===== src/Journal/Restart.antt =====
-- A restart of the agent: `Open` of agent/internal/journal/journal.go on the file that `Record`
-- wrote.
use mathlib.Core.Option
use vps_tool.Prelude.{
  suc, ◌≡◌, refl, ◌∙◌, sym, ap, Bool, false, ◌||◌, Option, none, some, List, [], ◌∷◌, map, String,
  str_eq, arith, length, ltb, ◌==◌, pos, lookup,
}
use vps_tool.Common.{Bytes, ok}
use vps_tool.Journal.Entries.{
  Entry, FileData, Codec, Journal, Found, present, file_data, incomplete, find_entry,
}
use vps_tool.Journal.Disk.{Disk, decode}
use vps_tool.Journal.Store.{
  opened, load, load_decoded, check_mode, open_content, open_journal, fresh_journal, content,
  FileStat,
}
use vps_tool.Journal.Index.{find, Unique, as_found}
use vps_tool.Journal.Cases.{find_entry-eq-find}
use vps_tool.Journal.Files.{Written}
use vps_tool.Journal.Record.{IsWellFormed}
use vps_tool.Journal.Reload.{open_journal-IsWellFormed}
use vps_tool.Journal.Loading.{Complete, Fresh, indexed_by, index_entries-opened}

-- What encoding/json documents: a strict decoder reads back what `MarshalIndent` wrote, up to the
-- layout of the raw JSON in `result`, and `reindent` is the layout it is given.
abbrev pub relaid : (Bytes → Bytes) → Entry → Entry
relaid reindent e = record e { result = reindent e.result }

pub record ReadsBack (codec : Codec) (reindent : Bytes → Bytes) (d : FileData) : Type 0 where
  pub reads :
      (bytes : Bytes)
      → codec.marshal_indent d ≡ some bytes
      → decode codec bytes ≡ ok (record d { entries = map (relaid reindent) d.entries })
  pub nonempty : (b : Bytes) → (length b == 0) ≡ false → (length (reindent b) == 0) ≡ false

module _ (reindent : Bytes → Bytes) where
  find-relaid :
      (k : String) (es : List Entry)
      → find k (map (relaid reindent) es) ≡ Option.map (relaid reindent) (find k es)
  unfolding find
  find-relaid k [] = refl
  find-relaid k (e ∷ es) = ground (arith, find-relaid k es)

  Unique-relaid : (es : List Entry) → Unique es → Unique (map (relaid reindent) es)
  Unique-relaid [] u = tt
  Unique-relaid (e ∷ es) u = (rw (find-relaid e.request_id es, u.0), Unique-relaid es u.1)

  incomplete-relaid :
      (e : Entry)
      → ((length e.result == 0) ≡ false → (length (reindent e.result) == 0) ≡ false)
      → incomplete e ≡ false
      → incomplete (relaid reindent e) ≡ false
  unfolding incomplete
  incomplete-relaid e n h = ground (arith, n)

  Complete-relaid :
      ((b : Bytes) → (length b == 0) ≡ false → (length (reindent b) == 0) ≡ false)
      → (es : List Entry) → Complete es
      → Complete (map (relaid reindent) es)
  Complete-relaid n [] c = tt
  Complete-relaid n (e ∷ es) c = (incomplete-relaid e (n e.result) c.0, Complete-relaid n es c.1)

  length-relaid : (es : List Entry) → length (map (relaid reindent) es) ≡ length es
  length-relaid [] = refl
  length-relaid (e ∷ es) = ap suc (length-relaid es)

  Fresh-empty : (es : List Entry) → Fresh [] es
  unfolding lookup
  Fresh-empty [] = tt
  Fresh-empty (e ∷ es) = (refl, Fresh-empty es)

-- What a lookup gives after a restart: the entry, its result laid out anew.
abbrev pub relaid_found : (Bytes → Bytes) → Found → Found
relaid_found reindent (present e) = present (relaid reindent e)
relaid_found reindent other = other

as_found-relaid :
    (reindent : Bytes → Bytes) (x : Option Entry)
    → as_found (Option.map (relaid reindent) x) ≡ relaid_found reindent (as_found x)
as_found-relaid reindent none = refl
as_found-relaid reindent (some e) = refl

module _ (codec : Codec) (reindent : Bytes → Bytes) (j : Journal)
    (json : ReadsBack codec reindent (file_data j)) (w : IsWellFormed j) (d : Disk)
    (f : Written codec j d) where
  abbrev relaid_entries : List Entry
  relaid_entries = map (relaid reindent) j.entries

  abbrev reloaded : Journal
  reloaded = indexed_by 0 relaid_entries (record (fresh_journal j.max_entries j.max_bytes) {
    version = j.version;
    entries = relaid_entries;
  })

  load-reloaded :
      load
        (fresh_journal j.max_entries j.max_bytes)
        (record { version = j.version; entries = relaid_entries })
      ≡ opened reloaded
  unfolding load
  load-reloaded =
      let n = length-relaid reindent j.entries in
      let short : ltb j.max_entries (length relaid_entries) ≡ false =
        ground (arith, w.bounded, n) in
      rw (w.version_one, short)
        (index_entries-opened 0 relaid_entries
          (record (fresh_journal j.max_entries j.max_bytes) {
            version = pos 1;
            entries = relaid_entries;
          })
          (Complete-relaid reindent json.nonempty j.entries w.is_indexed.completed)
          (Unique-relaid reindent j.entries w.is_indexed.unique)
          (Fresh-empty reindent relaid_entries))

  decode-file : decode codec f.bytes ≡ ok (record { version = j.version; entries = relaid_entries })
  unfolding file_data
  decode-file = json.reads f.bytes f.encoded

  open_file-written :
      (windows : Bool) (stat : FileStat)
      → check_mode windows stat ≡ none
      → open_content codec windows stat f.bytes (fresh_journal j.max_entries j.max_bytes)
        ≡ opened reloaded
  unfolding open_content
  open_file-written windows stat m =
      let small : ltb j.max_bytes (length f.bytes) ≡ false = ground (arith, f.fits) in
      rw (m, open_content, small) (rw decode-file (unfold load_decoded in load-reloaded))

  reloaded_opened :
      (windows : Bool) (path : String) (stat : FileStat)
      → str_eq path "" ≡ false
      → check_mode windows stat ≡ none
      → open_journal codec windows path j.max_entries j.max_bytes (content f.bytes) stat
        ≡ opened reloaded
  unfolding open_journal
  reloaded_opened windows path stat p m =
      let limits : (ltb j.max_entries 1 || ltb j.max_bytes 1024) ≡ false =
        ground (arith, w.room, w.space) in
      rw (p, limits) (open_file-written windows stat m)

  -- After a restart Open accepts the file of a well-formed journal that persistLocked wrote, and
  -- every request id leads to the entry it led to before, up to the JSON layout of its result. The
  -- codec is assumed to read back what it wrote, and the mode and path of the file to be
  -- acceptable.
  pub reopen-record :
      (windows : Bool) (path : String) (stat : FileStat)
      → str_eq path "" ≡ false
      → check_mode windows stat ≡ none
      → (k : Journal) × (open_journal codec windows path j.max_entries j.max_bytes
            (content f.bytes)
            stat
          ≡ opened k)
        × ((id : String) → find_entry k id ≡ relaid_found reindent (find_entry j id))
  reopen-record windows path stat p m =
      let o = reloaded_opened windows path stat p m in
      let v =
        open_journal-IsWellFormed codec windows path j.max_entries j.max_bytes (content f.bytes)
          stat reloaded o in
      (
        reloaded,
        o,
        λ id.
            find_entry-eq-find reloaded id v.is_indexed
            ∙ ap as_found (find-relaid reindent id j.entries)
            ∙ as_found-relaid reindent (find id j.entries)
            ∙ ap (relaid_found reindent) (sym (find_entry-eq-find j id w.is_indexed)),
      )
