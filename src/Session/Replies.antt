-- ===== src/Session/Replies.antt =====
-- The acknowledgements and results that a session of agent/internal/agent/agent.go sends, and the
-- collections of the status that it runs.
use vps_tool.Prelude.{
  ℕ, zero, suc, ◌+◌, ◌≡◌, refl, sym, ap, ◌∙◌, Bool, false, Option, none, some, List, [], ◌∷◌,
  String, str_eq, arith, if◌then◌else◌,
}
use mathlib.Core.Path.{subst}
use vps_tool.Common.{Error}
use vps_tool.Protocol.Messages.{Command}
use vps_tool.WarpChange.Verdict.{on_test}
use vps_tool.Session.Loop.{
  Message, hello, status_report, heartbeat, command_ack, command_result, notice, Peer, Session,
  Event, parent_done, read_failed, received, heartbeat_due, status_due, status_collected, executed,
  Received, refused, passed_over, accepted, classify, with_head, take_out, send, Next, going, ended,
  or_end, acknowledged, handled, handle_message, start_status, report_unless, collected, finished,
  on_event, and_on, serve,
}

abbrev one_if : Bool → ℕ
one_if b = if b then 1 else 0

-- How many commands of an id are being executed.
unfoldable pub waiting : String → List Command → ℕ
waiting k [] = 0
waiting k (c ∷ cs) = one_if (str_eq c.request_id k) + waiting k cs

module _ {P R : Type 0} where
  abbrev acknowledges : String → Message P R → ℕ
  acknowledges k hello = 0
  acknowledges k (status_report p) = 0
  acknowledges k (heartbeat p) = 0
  acknowledges k (command_ack c) = one_if (str_eq c.request_id k)
  acknowledges k (command_result id r) = 0
  acknowledges k (notice code m) = 0

  -- How many commands of an id were acknowledged, without an error.
  abbrev acked : String → Message P R × Option Error → ℕ
  acked k (m, some e) = 0
  acked k (m, none) = acknowledges k m

  unfoldable pub acks : String → List (Message P R × Option Error) → ℕ
  acks k [] = 0
  acks k (x ∷ xs) = acked k x + acks k xs

  abbrev answered : String → Message P R → ℕ
  answered k hello = 0
  answered k (status_report p) = 0
  answered k (heartbeat p) = 0
  answered k (command_ack c) = 0
  answered k (command_result id r) = one_if (str_eq id k)
  answered k (notice code m) = 0

  -- How many results of an id were handed to `send`.
  unfoldable pub results : String → List (Message P R × Option Error) → ℕ
  results k [] = 0
  results k ((m, e) ∷ xs) = answered k m + results k xs

module _ {W P R : Type 0} where
  abbrev pub state_of : Next W P R → Session W P R
  state_of (going s) = s
  state_of (ended e s) = s

  -- Results and executions have grown by what was acknowledged.
  abbrev pub Balanced : String → Session W P R → Session W P R → Type 0
  Balanced k s s' =
      results k s'.sent + waiting k s'.executing + acks k s.sent
      ≡ results k s.sent + waiting k s.executing + acks k s'.sent

with_head-some :
    (c d : Command) (rest : List Command) (o : Option (Command × List Command))
    → with_head c o ≡ some (d, rest)
    → (tail : List Command) × (o ≡ some (d, tail)) × (rest ≡ c ∷ tail)
with_head-some c d rest none h = cc
with_head-some c d rest (some (e, tail)) h = (tail, cc, cc)

take_out-waiting :
    (k : String) (n : ℕ) (cs rest : List Command) (d : Command)
    → take_out n cs ≡ some (d, rest)
    → waiting k cs ≡ one_if (str_eq d.request_id k) + waiting k rest
unfolding take_out waiting
take_out-waiting k n [] rest d h = cc
take_out-waiting k zero (c ∷ cs) rest d h =
    let same_head : c ≡ d = cc in
    let same_rest : cs ≡ rest = cc in
    ap (λ (x : Command). one_if (str_eq x.request_id k) + waiting k cs) same_head
    ∙ ap (λ (x : List Command). one_if (str_eq d.request_id k) + waiting k x) same_rest
take_out-waiting k (suc n) (c ∷ cs) rest d h =
    let (tail, found, same_rest) = with_head-some c d rest (take_out n cs) h in
    let ih = take_out-waiting k n cs tail d found in
    let more = ap (waiting k) same_rest in omega arith

module _ {W P R : Type 0} (peer : Peer W P R) (k : String) where
  -- What `send` adds.
  record Sends (m : Message P R) (s : Session W P R) (x : Session W P R × Option Error)
      : Type 0 where
    sent : x.0.sent ≡ (m, x.1) ∷ s.sent
    executing : x.0.executing ≡ s.executing

  send-Sends : (m : Message P R) (s : Session W P R) → Sends m s (send peer m s)
  unfolding send
  send-Sends m s = record { sent = refl; executing = refl }

  counted :
      (m : Message P R) (s : Session W P R) (x : Session W P R × Option Error)
      → Sends m s x
      → (results k x.0.sent ≡ answered k m + results k s.sent)
        × (acks k x.0.sent ≡ acked k (m, x.1) + acks k s.sent)
        × (waiting k x.0.executing ≡ waiting k s.executing)
  unfolding results acks
  counted m s x h = (ap (results k) h.sent, ap (acks k) h.sent, ap (waiting k) h.executing)

  not_acked : (m : Message P R) (e : Option Error) → acknowledges k m ≡ 0 → acked k (m, e) ≡ 0
  not_acked m none h = h
  not_acked m (some e) h = refl

  -- A message that is neither an acknowledgement nor a result.
  other-Balanced :
      (m : Message P R) (s : Session W P R) (x : Session W P R × Option Error)
      → Sends m s x
      → answered k m ≡ 0
      → acknowledges k m ≡ 0
      → Balanced k s x.0
  other-Balanced m s x h a b = let quiet = not_acked m x.1 b in omega (arith, counted m s x h)

  or_end-state : (x : Session W P R × Option Error) → state_of (or_end peer x) ≡ x.0
  or_end-state (s, some e) = refl
  or_end-state (s, none) = refl

  sent-Balanced :
      (m : Message P R) (s : Session W P R)
      → answered k m ≡ 0
      → acknowledges k m ≡ 0
      → Balanced k s (state_of (or_end peer (send peer m s)))
  sent-Balanced m s a b =
      subst (Balanced k s) (sym (or_end-state (send peer m s)))
        (other-Balanced m s (send peer m s) (send-Sends m s) a b)

  acknowledged-Balanced :
      (c : Command) (s : Session W P R) (x : Session W P R × Option Error)
      → Sends (command_ack c) s x
      → Balanced k s (acknowledged peer c x)
  unfolding waiting
  acknowledged-Balanced c s (s', some e) h = omega (arith, counted (command_ack c) s (s', some e) h)
  acknowledged-Balanced c s (s', none) h = omega (arith, counted (command_ack c) s (s', none) h)

  handled-Balanced : (r : Received) (s : Session W P R) → Balanced k s (handled peer r s)
  unfolding handled
  handled-Balanced (refused code m) s =
      other-Balanced (notice code m) s (send peer (notice code m) s) (send-Sends (notice code m) s)
        refl refl
  handled-Balanced passed_over s = omega arith
  handled-Balanced (accepted c) s =
      acknowledged-Balanced c s (send peer (command_ack c) s) (send-Sends (command_ack c) s)

  report-Balanced :
      (o : Option Error) (p : P) (s : Session W P R)
      → Balanced k s (state_of (report_unless peer o p s))
  report-Balanced (some over) p s = omega arith
  report-Balanced none p s = sent-Balanced (status_report p) s refl refl

  collected-Balanced : (n : ℕ) (s : Session W P R) → Balanced k s (state_of (collected peer n s))
  collected-Balanced zero s = omega arith
  collected-Balanced (suc n) s =
      let (w, (p, e)) = peer.collect s.world in
      report-Balanced (peer.cancelled w) p
        (record s { world = w; status_running = false; collections = n })

  finished-Balanced :
      (o : Option (Command × List Command)) (s : Session W P R) (n : ℕ)
      → take_out n s.executing ≡ o
      → Balanced k s (finished peer o s)
  finished-Balanced none s n h = omega arith
  finished-Balanced (some (c, rest)) s n h =
      let (w, r) = peer.execute c s.world in
      let s1 : Session W P R = record s { world = (peer.execute c s.world).0; executing = rest } in
      let m = command_result c.request_id (peer.execute c s.world).1 in
      let quiet = not_acked m (send peer m s1).1 refl in
      let taken = take_out-waiting k n s.executing rest c h in
      let count = counted m s1 (send peer m s1) (send-Sends m s1) in omega arith

  on_event-Balanced : (v : Event) (s : Session W P R) → Balanced k s (state_of (on_event peer v s))
  unfolding on_event handle_message start_status
  on_event-Balanced parent_done s = omega arith
  on_event-Balanced (read_failed e) s = omega arith
  on_event-Balanced (received bytes) s = handled-Balanced (classify peer.json bytes) s
  on_event-Balanced heartbeat_due s = sent-Balanced (heartbeat (peer.last s.world)) s refl refl
  on_event-Balanced status_due s =
      on_test (Balanced k s) s.status_running _ _ (λ on. omega arith) (λ off. omega arith)
  on_event-Balanced status_collected s = collected-Balanced s.collections s
  on_event-Balanced (executed n) s = finished-Balanced (take_out n s.executing) s n refl

  then-Balanced :
      (x : Next W P R) (s : Session W P R) (vs : List Event)
      → Balanced k s (state_of x)
      → ((s' : Session W P R) → Balanced k s' (state_of (serve peer vs s')))
      → Balanced k s (state_of (and_on peer x (λ s'. serve peer vs s')))
  then-Balanced (ended e s') s vs h rest = h
  then-Balanced (going s') s vs h rest = let later = rest s' in omega arith

  -- Whatever events a session meets, and however its messages fail to be sent: for every request
  -- id, the results sent and the executions under way together grow by exactly the number of
  -- commands acknowledged without an error. So nothing is executed or answered that was not
  -- acknowledged, and no acknowledgement is answered twice.
  pub serve-Balanced :
      (vs : List Event) (s : Session W P R) → Balanced k s (state_of (serve peer vs s))
  unfolding serve
  serve-Balanced [] s = omega arith
  serve-Balanced (v ∷ vs) s =
      then-Balanced (on_event peer v s) s vs (on_event-Balanced v s) (serve-Balanced vs)
