-- ===== src/Journal/Loading.antt =====
-- The loop of `Open` of agent/internal/journal/journal.go over the entries of the file.
use vps_tool.Prelude.{
  ℕ, suc, ◌≡◌, refl, inl, inr, Bool-cases, Option-cases, false, none, List, [], ◌∷◌, String, eq_iff,
  arith, Dict, lookup, insert, lookup-insert, All,
}
use vps_tool.Journal.Entries.{Entry, Journal, incomplete, index_from}
use vps_tool.Journal.Store.{opened, index_entries}
use vps_tool.Journal.Index.{find, Unique}

-- No entry has an id that the index holds already.
abbrev pub Fresh : Dict ℕ → List Entry → Type 0
Fresh m = All (λ e. lookup e.request_id m ≡ none)

abbrev pub Complete : List Entry → Type 0
Complete = All (λ e. incomplete e ≡ false)

-- The index that the loop of `Open` builds.
abbrev pub indexed_by : ℕ → List Entry → Journal → Journal
indexed_by i es j = record j { index = index_from i es j.index }

Fresh-insert :
    (k : String) (i : ℕ) (es : List Entry) (m : Dict ℕ)
    → find k es ≡ none
    → Fresh m es
    → Fresh (insert k i m) es
unfolding find
Fresh-insert k i [] m n f = tt
Fresh-insert k i (x ∷ es) m n f = (
  rw lookup-insert (ground (arith, f.0, eq_iff k x.request_id, eq_iff x.request_id k)),
  Fresh-insert k i es m (ground arith) f.1,
)

-- What the index holds does not occur further on.
find-of_Fresh :
    (k : String) (i : ℕ) (es : List Entry) (m : Dict ℕ)
    → Fresh (insert k i m) es
    → (find k es ≡ none) × Fresh m es
unfolding find
find-of_Fresh k i [] m f = (refl, tt)
find-of_Fresh k i (x ∷ es) m f =
    let (n, rest) = find-of_Fresh k i es m f.1 in
    let here = rw lookup-insert at f.0 in
    (
      ground (arith, here, n, eq_iff k x.request_id, eq_iff x.request_id k),
      (ground (arith, here), rest),
    )

pub index_entries-opened :
    (i : ℕ) (es : List Entry) (j : Journal)
    → Complete es
    → Unique es
    → Fresh j.index es
    → index_entries i es j ≡ opened (indexed_by i es j)
unfolding index_entries index_from
index_entries-opened i [] j c u f = refl
index_entries-opened i (e ∷ es) j c u f =
    rw (c.0, f.0)
      (index_entries-opened (suc i) es (record j { index = insert e.request_id i j.index }) c.1 u.1
        (Fresh-insert e.request_id i es j.index u.0 f.1))

pub record Accepted (i : ℕ) (es : List Entry) (j k : Journal) : Type 0 where
  pub completed : Complete es
  pub unique : Unique es
  pub fresh : Fresh j.index es
  pub result : k ≡ indexed_by i es j

pub index_entries-Accepted :
    (i : ℕ) (es : List Entry) (j k : Journal) → index_entries i es j ≡ opened k → Accepted i es j k
unfolding index_entries index_from
index_entries-Accepted i [] j k h = record { completed = tt; unique = tt; fresh = tt; result = cc }
index_entries-Accepted i (e ∷ es) j k h = elim (Bool-cases (incomplete e)) [
  | inl bad ↦ cc (rw bad at h)
  | inr good ↦ elim (Option-cases (lookup e.request_id j.index)) [
    | inr (p, seen) ↦ cc (rw (good, seen) at h)
    | inl new ↦
        let a =
          index_entries-Accepted (suc i) es (record j { index = insert e.request_id i j.index }) k
            (rw (good, new) at h) in
        let (n, f) = find-of_Fresh e.request_id i es j.index a.fresh in
        record {
          completed = (good, a.completed);
          unique = (n, a.unique);
          fresh = (new, f);
          result = a.result;
        }
  ]
]
