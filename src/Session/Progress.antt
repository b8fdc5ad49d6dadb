-- ===== src/Session/Progress.antt =====
-- The collections of the status beside the loop of agent/internal/agent/agent.go.
use vps_tool.Prelude.{
  ℕ, zero, suc, ◌+◌, ◌≡◌, refl, sym, ap, ◌∙◌, Bool, true, false, Option, none, some, List, [], ◌∷◌,
  arith, if◌then◌else◌,
}
use vps_tool.Common.{Error}
use vps_tool.Protocol.Messages.{Command}
use vps_tool.WarpChange.Verdict.{on_test}
use vps_tool.Session.Loop.{
  Message, command_ack, command_result, notice, heartbeat, status_report, Peer, Session, Event,
  parent_done, read_failed, received, heartbeat_due, status_due, status_collected, executed,
  Received, refused, passed_over, accepted, classify, take_out, send, Next, going, ended, or_end,
  acknowledged, handled, handle_message, start_status, report_unless, collected, finished, on_event,
  and_on, serve,
}
use vps_tool.Session.Replies.{state_of}

module _ {W P R : Type 0} (peer : Peer W P R) where
  -- A collection runs exactly if the flag says so, and there is no second one.
  abbrev pub IsSingle : Session W P R → Type 0
  IsSingle s = s.collections ≡ (if s.status_running then 1 else 0)

  -- The flag and the number of collections are as before.
  record Leaves (s s' : Session W P R) : Type 0 where
    flag : s'.status_running ≡ s.status_running
    count : s'.collections ≡ s.collections

  Leaves-IsSingle : (s s' : Session W P R) → Leaves s s' → IsSingle s → IsSingle s'
  Leaves-IsSingle s s' l h = l.count ∙ h ∙ ap (λ (b : Bool). if b then 1 else 0) (sym l.flag)

  send-Leaves : (m : Message P R) (s : Session W P R) → Leaves s (send peer m s).0
  unfolding send
  send-Leaves m s = record { flag = refl; count = refl }

  or_end-IsSingle :
      (x : Session W P R × Option Error) → IsSingle x.0 → IsSingle (state_of (or_end peer x))
  or_end-IsSingle (s, some e) h = h
  or_end-IsSingle (s, none) h = h

  sent-IsSingle : (m : Message P R) (s : Session W P R) → IsSingle s → IsSingle (send peer m s).0
  sent-IsSingle m s h = Leaves-IsSingle s (send peer m s).0 (send-Leaves m s) h

  acknowledged-IsSingle :
      (c : Command) (x : Session W P R × Option Error)
      → IsSingle x.0
      → IsSingle (acknowledged peer c x)
  acknowledged-IsSingle c (s, some e) h = h
  acknowledged-IsSingle c (s, none) h = h

  handled-IsSingle : (r : Received) (s : Session W P R) → IsSingle s → IsSingle (handled peer r s)
  unfolding handled
  handled-IsSingle (refused code m) s h = sent-IsSingle (notice code m) s h
  handled-IsSingle passed_over s h = h
  handled-IsSingle (accepted c) s h =
      acknowledged-IsSingle c (send peer (command_ack c) s) (sent-IsSingle (command_ack c) s h)

  report-IsSingle :
      (o : Option Error) (p : P) (s : Session W P R)
      → IsSingle s
      → IsSingle (state_of (report_unless peer o p s))
  report-IsSingle (some over) p s h = h
  report-IsSingle none p s h =
      or_end-IsSingle (send peer (status_report p) s) (sent-IsSingle (status_report p) s h)

  collected-IsSingle :
      (n : ℕ) (s : Session W P R)
      → s.collections ≡ n
      → IsSingle s
      → IsSingle (state_of (collected peer n s))
  collected-IsSingle zero s e h = h
  collected-IsSingle (suc n) s e h =
      let (w, (p, x)) = peer.collect s.world in
      report-IsSingle (peer.cancelled w) p
        (record s { world = w; status_running = false; collections = n })
        (last_one n s.status_running (sym e ∙ h))
    where
      last_one : (n : ℕ) (b : Bool) → suc n ≡ (if b then 1 else 0) → n ≡ 0
      last_one n true h = omega arith
      last_one n false h = absurd (omega arith)

  finished-IsSingle :
      (o : Option (Command × List Command)) (s : Session W P R)
      → IsSingle s
      → IsSingle (finished peer o s)
  finished-IsSingle none s h = h
  finished-IsSingle (some (c, rest)) s h =
      sent-IsSingle (command_result c.request_id (peer.execute c s.world).1)
        (record s { world = (peer.execute c s.world).0; executing = rest }) h

  on_event-IsSingle :
      (v : Event) (s : Session W P R) → IsSingle s → IsSingle (state_of (on_event peer v s))
  unfolding on_event handle_message start_status
  on_event-IsSingle parent_done s h = h
  on_event-IsSingle (read_failed e) s h = h
  on_event-IsSingle (received bytes) s h = handled-IsSingle (classify peer.json bytes) s h
  on_event-IsSingle heartbeat_due s h =
      or_end-IsSingle (send peer (heartbeat (peer.last s.world)) s)
        (sent-IsSingle (heartbeat (peer.last s.world)) s h)
  on_event-IsSingle status_due s h =
      on_test IsSingle s.status_running _ _ (λ on. h)
        (λ off. first_one s.status_running s.collections off h)
    where
      first_one : (b : Bool) (n : ℕ) → b ≡ false → n ≡ (if b then 1 else 0) → n + 1 ≡ 1
      first_one true n e h = cc
      first_one false n e h = omega arith
  on_event-IsSingle status_collected s h = collected-IsSingle s.collections s refl h
  on_event-IsSingle (executed n) s h = finished-IsSingle (take_out n s.executing) s h

  then-IsSingle :
      (x : Next W P R) (vs : List Event)
      → IsSingle (state_of x)
      → ((s' : Session W P R) → IsSingle s' → IsSingle (state_of (serve peer vs s')))
      → IsSingle (state_of (and_on peer x (λ s'. serve peer vs s')))
  then-IsSingle (ended e s) vs h rest = h
  then-IsSingle (going s) vs h rest = rest s h

  -- Whatever events a session meets, there is at most one collection of the status beside the
  -- loop, and one exactly if statusRunning is set.
  pub serve-IsSingle :
      (vs : List Event) (s : Session W P R) → IsSingle s → IsSingle (state_of (serve peer vs s))
  unfolding serve
  serve-IsSingle [] s h = h
  serve-IsSingle (v ∷ vs) s h =
      then-IsSingle (on_event peer v s) vs (on_event-IsSingle v s h) (serve-IsSingle vs)
