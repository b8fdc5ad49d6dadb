-- ===== src/Executor/Idempotence.antt =====
-- A second request under the same id: what `Execute` of agent/internal/action/executor.go, and the
-- second look at the journal, do with an id that has a result.
use mathlib.Core.Path.{subst}
use vps_tool.Prelude.{
  ◌≡◌, refl, inl, inr, ◌∙◌, sym, ap, true, false, Option, none, String, str_eq, eq_iff, arith,
  if◌then◌else◌,
}
use vps_tool.Journal.Entries.{Entry, Found, absent, present, out_of_range, find_entry}
use vps_tool.Journal.Disk.{Outcomes}
use vps_tool.Journal.Store.{Store, RecordError}
use vps_tool.Journal.Record.{IsWellFormed}
use vps_tool.Journal.History.{record_entry_new}
use vps_tool.Protocol.Actions.{is_state_changing}
use vps_tool.Protocol.Messages.{Command}
use vps_tool.Protocol.Commands.{validate_command}
use vps_tool.Executor.Results.{ActionResult, to_entry, from_journal, persist_result}
use vps_tool.Executor.Dispatch.{run_action}
use vps_tool.Journal.Cases.{Found-cases}
use vps_tool.Executor.Outcome.{Answers, run_action-Answers}
use vps_tool.Executor.Requests.{
  Parts, State, Reply, replied, is_active, claim, release, bare, deadline_of, known_reply,
  admit_new, admit, run_and_record, perform_claimed, perform, execute,
}

module _ {W P : Type 0} (parts : Parts W P) (o : Outcomes) (c : Command) (s : State W) where
  -- A request id that the journal knows is answered from the journal.
  execute_known :
      (previous : Entry)
      → find_entry s.store.journal c.request_id ≡ present previous
      → execute parts o c s ≡ (
        s,
        replied (
            if str_eq previous.action c.action
            then from_journal parts.payloads previous
            else bare c
                (parts.node.now s.world)
                "failed"
                "request_conflict"
                "request_id is already associated with a different action"),
      )
  unfolding execute admit known_reply
  execute_known previous h = ground (arith, h)

store-release : {W : Type 0} (id : String) (s : State W) → (release id s).store ≡ s.store
unfolding release
store-release id s = refl

module _ {W P : Type 0} (parts : Parts W P) (o : Outcomes) (c : Command) (s : State W)
    (w : IsWellFormed s.store.journal) where
  abbrev ran : W × ActionResult P
  ran = run_action parts.json parts.node (deadline_of c) c parts.installer parts.transport s.world

  abbrev stored : Store × Option RecordError
  stored = persist_result parts.payloads parts.codec o ran.1 s.store

  execute-ran :
      find_entry s.store.journal c.request_id ≡ absent
      → validate_command parts.json c parts.node_id (parts.node.now s.world) ≡ none
      → is_active c.request_id s.active ≡ false
      → stored.1 ≡ none
      → execute parts o c s ≡ (
        release c.request_id (record (claim c.request_id s) { store = stored.0; world = ran.0 }),
        replied ran.1,
      )
  unfolding execute admit admit_new perform perform_claimed run_and_record claim
  execute-ran h v a d = ground (arith, h, v, a, d)

  answers : Answers c ran
  answers =
      run_action-Answers parts.json parts.node (deadline_of c) c parts.installer parts.transport
        s.world

  entry_id : (to_entry parts.payloads ran.1).request_id ≡ c.request_id
  unfolding to_entry
  entry_id = answers.same_id

  entry_action : (to_entry parts.payloads ran.1).action ≡ c.action
  unfolding to_entry
  entry_action = answers.same_action

  -- The result is under the id of the command.
  stored-found :
      find_entry s.store.journal c.request_id ≡ absent
      → stored.1 ≡ none
      → find_entry stored.0.journal c.request_id ≡ present (to_entry parts.payloads ran.1)
  unfolding persist_result
  stored-found h d =
      subst (λ k. find_entry stored.0.journal k ≡ present (to_entry parts.payloads ran.1)) entry_id
        (record_entry_new parts.codec o (to_entry parts.payloads ran.1) s.store w
          (subst (λ k. find_entry s.store.journal k ≡ absent) (sym entry_id) h) d)

  -- At most once: when a new, valid command that is not in progress was carried out and its result
  -- recorded, a later Execute of the same command answers with the recorded result, and the node,
  -- the journal, its file and the requests in progress stay as they are. This holds in whatever
  -- state that Execute finds, as long as the journal leads the request id to what it led to behind
  -- the first one, that is, until the entry is evicted. The journal is assumed well formed at the
  -- first Execute.
  pub execute_once :
      find_entry s.store.journal c.request_id ≡ absent
      → validate_command parts.json c parts.node_id (parts.node.now s.world) ≡ none
      → is_active c.request_id s.active ≡ false
      → stored.1 ≡ none
      → (o' : Outcomes) (t : State W)
      → find_entry t.store.journal c.request_id
        ≡ find_entry (execute parts o c s).0.store.journal c.request_id
      → ((execute parts o c s).1 ≡ replied ran.1)
        × (execute parts o' c t
            ≡ (t, replied (from_journal parts.payloads (to_entry parts.payloads ran.1))))
  execute_once h v a d o' t kept =
      let r = execute-ran h v a d in
      let e = to_entry parts.payloads ran.1 in
      let held =
        ap (λ (x : State W × Reply P). find_entry x.0.store.journal c.request_id) r
        ∙ rw
            (store-release c.request_id
              (record (claim c.request_id s) { store = stored.0; world = ran.0 }))
            (stored-found h d) in
      (
        ap (λ (x : State W × Reply P). x.1) r,
        execute_known parts o' c t e (kept ∙ held) ∙ rw ((eq_iff e.action c.action).1 entry_action),
      )

  perform-ran :
      is_state_changing c.action ≡ true
      → find_entry s.store.journal c.request_id ≡ absent
      → (perform parts o c s).0
        ≡ release c.request_id (record s { store = stored.0; world = ran.0 })
  unfolding perform perform_claimed run_and_record
  perform-ran changes h = ground (arith, changes, h)

-- The node, the journal and its file are as before.
abbrev pub Untouched : {W : Type 0} → State W → State W → Type 0
Untouched s t = (t.world ≡ s.world) × (t.store ≡ s.store)

module _ {W P : Type 0} (parts : Parts W P) (o : Outcomes) (c : Command) (s : State W)
    (changes : is_state_changing c.action ≡ true) where
  perform-seen :
      (previous : Entry)
      → find_entry s.store.journal c.request_id ≡ present previous
      → Untouched s (perform parts o c s).0
  unfolding perform perform_claimed release
  perform-seen previous h = ground (arith, changes, h)

  perform-out_of_range :
      find_entry s.store.journal c.request_id ≡ out_of_range → Untouched s (perform parts o c s).0
  unfolding perform perform_claimed release
  perform-out_of_range h = ground (arith, changes, h)

-- What a second request meets under the id of the first.
data Met {W : Type 0} (id : String) (t : State W) : Type 0 where
  entry : (e : Entry) → find_entry t.store.journal id ≡ present e → Met id t
  damage : find_entry t.store.journal id ≡ out_of_range → Met id t

as_before :
    {W : Type 0} (id : String) (s t : State W) (f : Found)
    → Untouched s t
    → find_entry s.store.journal id ≡ f
    → find_entry t.store.journal id ≡ f
as_before id s t f same h = ap (λ (x : Store). find_entry x.journal id) same.1 ∙ h

module _ {W P : Type 0} (parts : Parts W P) (o : Outcomes) (c : Command) (s : State W)
    (w : IsWellFormed s.store.journal) where
  perform-met :
      is_state_changing c.action ≡ true
      → (stored parts o c s w).1 ≡ none
      → Met c.request_id (perform parts o c s).0
  perform-met changes d = elim (Found-cases (find_entry s.store.journal c.request_id)) [
    | inl new ↦ entry (to_entry parts.payloads (ran parts o c s w).1) (
        ap (λ (x : State W). find_entry x.store.journal c.request_id)
          (perform-ran parts o c s w changes new)
        ∙ rw
            (store-release c.request_id
              (record s { store = (stored parts o c s w).0; world = (ran parts o c s w).0 }))
            (stored-found parts o c s w new d))
    | inr (inl bad) ↦ damage (
        as_before c.request_id s (perform parts o c s).0 out_of_range
          (perform-out_of_range parts o c s changes bad) bad)
    | inr (inr (e, seen)) ↦ entry e (
        as_before c.request_id s (perform parts o c s).0 (present e)
          (perform-seen parts o c s changes e seen) seen)
  ]

  -- Of two claimed requests with one id that both change the state of the node, the second touches
  -- nothing: whatever its action, behind the first one, whose result was recorded, the node, the
  -- journal and its file stay as they are. The journal is assumed well formed at the first one,
  -- and it is assumed that the result of the action, as it would be carried out then, can be
  -- recorded.
  pub perform_once :
      is_state_changing c.action ≡ true
      → (persist_result parts.payloads parts.codec o
          (run_action parts.json parts.node
            (deadline_of c)
            c
            parts.installer
            parts.transport
            s.world).1
          s.store).1
        ≡ none
      → (o' : Outcomes) (c' : Command) → is_state_changing c'.action ≡ true
      → c'.request_id ≡ c.request_id
      → Untouched (perform parts o c s).0 (perform parts o' c' (perform parts o c s).0).0
  perform_once changes d o' c' changes' same =
      let t = (perform parts o c s).0 in
      elim (subst (λ k. Met k t) (sym same) (perform-met changes d)) [
        | entry e seen ↦ perform-seen parts o' c' t changes' e seen
        | damage bad ↦ perform-out_of_range parts o' c' t changes' bad
      ]
