-- ===== src/Wifi/Session/Run.antt =====
-- Any sequence of calls of the WiFi transfer functions on a ready manager.
use lib_arnetwork_al.Prelude.{
  List, Option, [], ap, arith, is_neg, refl, some, ℕ, ◌++◌, ◌+◌, ◌>>=◌, ◌∙◌, ◌∷◌, ◌≡◌,
}
use lib_arnetwork_al.Platform.{IsPlatform, Memory, Platform}
use lib_arnetwork_al.Frame.{Frame, Return, parse}
use lib_arnetwork_al.Wifi.{
  Event, IsReceiver, IsReceiver-IsBuffer, IsSender, Manager, WifiObject, unread,
}
use lib_arnetwork_al.Wifi.Push.{OutQueue, push_frame}
use lib_arnetwork_al.Wifi.Push.Refine.{push_frame_refines}
use lib_arnetwork_al.Wifi.Pop.Refine.{dump_after, pop_frame_refines, receiver_after}
use lib_arnetwork_al.Wifi.Pop.Safety.{receiver_after-IsReceiver}
use lib_arnetwork_al.Wifi.Send.{SendReply, send}
use lib_arnetwork_al.Wifi.Send.Refine.{send_refines}
use lib_arnetwork_al.Wifi.Receive.{Replies, receive}
use lib_arnetwork_al.Wifi.Receive.Refine.{AreReplies, receive_refines}
use lib_arnetwork_al.Wifi.Session.{
  AllCalls, Call, IsCall, IsSession, budget, call, notifications, pop, push, receive_next, run,
  send_all,
}
use lib_arnetwork_al.Wifi.Session.Links.{
  Linked, Post, Post-elim, SenderLinked, push_frame-Linked, send-Linked,
}
use lib_arnetwork_al.Wifi.Session.Receiver.{
  Kept-ReceiverLinked, ReceiverLinked, ReceiverStep, dump_after-quiet, notifications-append,
  receive-Linked, receiver_after-Kept,
}

-- A manager with both objects, ready for every call.
pub record IsReady (p : Platform) (m : Manager) : Type 0 where
  pub sender_object : WifiObject
  pub receiver_object : WifiObject
  pub at_sender : m.sender ≡ some sender_object
  pub at_receiver : m.receiver ≡ some receiver_object
  pub session : IsSession p sender_object receiver_object

-- How often the application can still be told.
abbrev pub left : {p : Platform} {m : Manager} → IsReady p m → ℕ
left h = budget h.sender_object h.receiver_object

-- A step that does not fault, leaves the manager ready, and tells the application what it had to.
abbrev pub Runs : Platform → Option (Manager × List Event) → ℕ → Type 0
Runs p out budget_before =
    (m' : Manager) × (events : List Event) × (out ≡ some (m', events))
    × (ready' : IsReady p m') × (notifications events + left ready' ≡ budget_before)

pub some-injective : {A : Type 0} {a b : A} → some a ≡ some b → a ≡ b
some-injective e = ground arith

sender-IsSession :
    {p : Platform} {s r s' : WifiObject} (events : List Event)
    → IsSession p s r
    → IsSender p s'
    → Linked s r s' events
    → IsSession p s' r
sender-IsSession events h v k = record {
  sender_valid = v;
  receiver_valid = h.receiver_valid;
  socket_open = h.socket_open;
  fifo_open = h.fifo_open;
  sender_callback = h.sender_callback;
  sender_tells = k.callback ∙ h.sender_tells;
  receiver_callback = h.receiver_callback;
  receiver_tells = h.receiver_tells;
}

receiver-IsSession :
    {p : Platform} {s r r' : WifiObject} (events : List Event)
    → IsSession p s r
    → IsReceiver p r'
    → ReceiverLinked s r r' events
    → IsSession p s r'
receiver-IsSession events h v k = record {
  sender_valid = h.sender_valid;
  receiver_valid = v;
  socket_open = ap is_neg k.socket ∙ h.socket_open;
  fifo_open = ap is_neg k.fifo ∙ h.fifo_open;
  sender_callback = h.sender_callback;
  sender_tells = h.sender_tells;
  receiver_callback = h.receiver_callback;
  receiver_tells = k.callback ∙ h.receiver_tells;
}

module _ {p : Platform} {m : Manager} (ip : IsPlatform p) (h : IsReady p m) where
  -- A call that changes the sender only, and one that changes the receiver only.
  sender-Runs :
      (out : Option (Return × Manager × List Event)) (code : Return) (s' : WifiObject)
      (events : List Event)
      → out ≡ some (code, record m { sender = some s' }, events)
      → IsSender p s'
      → Post (SenderLinked h.sender_object h.receiver_object) out
      → Runs p (out >>= λ (r, m', es). some (m', es)) (left h)
  sender-Runs out code s' events ran v post =
      let (s'', e, linked) =
        Post-elim (SenderLinked h.sender_object h.receiver_object) out _ ran post in
      let same = some-injective e in
      (
        record m { sender = some s' },
        events,
        rw ran refl,
        record {
          sender_object = s'';
          receiver_object = h.receiver_object;
          at_sender = e;
          at_receiver = h.at_receiver;
          session = sender-IsSession events h.session (rw same at v) linked;
        },
        linked.told,
      )

  push-Runs :
      (mem : Memory) (reply : OutQueue) (f : Frame)
      → IsCall p (push mem reply f)
      → Runs p (call p m (push mem reply f)) (left h)
  unfolding call
  push-Runs mem reply f (payload, whole, small, read) =
      let v = h.session.sender_valid in
      let done =
        push_frame_refines mem reply m h.sender_object f payload ip v h.at_sender whole
          (omega (arith, ip, v)) read in
      sender-Runs (push_frame p mem reply m f) done.result done.sender done.events done.returns
        done.valid_after
        (push_frame-Linked p mem reply m h.sender_object h.receiver_object f h.at_sender)

  send-Runs : (reply : SendReply) → Runs p (call p m (send_all reply)) (left h)
  unfolding call
  send-Runs reply =
      let (code, s', events, ran, v, _, _, _) =
        send_refines reply m h.sender_object h.session.sender_valid h.at_sender in
      sender-Runs (send reply m) code s' events ran v (
        send-Linked reply m h.sender_object h.receiver_object h.session.sender_callback h.at_sender
          h.at_receiver h.session.sender_tells)

  pop-Runs : (f : Frame) → Runs p (call p m (pop f)) (left h)
  unfolding call
  pop-Runs f =
      let o = h.receiver_object in
      let v = h.session.receiver_valid in
      let parsed = parse p (unread o) in
      let events = dump_after m.dump_file o parsed in
      let linked =
        Kept-ReceiverLinked h.sender_object o (receiver_after o parsed) events
          (receiver_after-Kept o parsed) (dump_after-quiet m.dump_file o parsed) in
      (
        record m { receiver = some (receiver_after o parsed) },
        events,
        rw (pop_frame_refines m o f ip v h.at_receiver) refl,
        record {
          sender_object = h.sender_object;
          receiver_object = receiver_after o parsed;
          at_sender = h.at_sender;
          at_receiver = refl;
          session =
              receiver-IsSession events h.session (receiver_after-IsReceiver v parsed refl) linked;
        },
        linked.told,
      )

  receive-Runs : (env : Replies) → AreReplies p env → Runs p (call p m (receive_next env)) (left h)
  unfolding call
  receive-Runs env ok =
      let o = h.receiver_object in
      let s = h.session in
      let (code, r', events, ran, v, _, _) =
        receive_refines env m o (IsReceiver-IsBuffer s.receiver_valid) ok h.at_receiver
          s.socket_open s.fifo_open in
      let (r'', e, linked) =
        Post-elim (λ out. ReceiverStep h.sender_object o out.1 out.2) (receive p env m) _ ran
          (receive-Linked p env m h.sender_object o s.receiver_callback h.at_sender h.at_receiver
            s.receiver_tells s.socket_open s.fifo_open) in
      let same = some-injective e in
      (
        record m { receiver = some r' },
        events,
        rw ran refl,
        record {
          sender_object = h.sender_object;
          receiver_object = r'';
          at_sender = h.at_sender;
          at_receiver = e;
          session = receiver-IsSession events s (rw same at v) linked;
        },
        linked.told,
      )

  call-Runs : (c : Call) → IsCall p c → Runs p (call p m c) (left h)
  call-Runs (push mem reply f) ok = push-Runs mem reply f ok
  call-Runs (pop f) ok = pop-Runs f
  call-Runs (send_all reply) ok = send-Runs reply
  call-Runs (receive_next env) ok = receive-Runs env ok

-- On a manager with a valid sender, a valid receiver with open descriptors and the application's
-- callback on both, any sequence of calls of PushFrame, PopFrame, Send and Receive in which every
-- frame to push has the size of its head and of its readable data and a size below 2^32 - 65536, and
-- in which the system's answers to Receive respect the room that they are given, runs without a
-- fault and leaves the manager ready again. The application is told of a disconnection once in the
-- sequence if both objects were connected before it and one is disconnected behind it, and else
-- never.
pub run-Runs :
    {p : Platform} (cs : List Call) (m : Manager)
    → IsPlatform p
    → (h : IsReady p m) → AllCalls p cs
    → Runs p (run p cs m) (left h)
unfolding run
run-Runs [] m ip h ok = (m, [], refl, h, omega arith)
run-Runs (c ∷ cs) m ip h (ok, oks) =
    let (m', es, ran, h', told) = call-Runs ip h c ok in
    let (m'', es', ran', h'', told') = run-Runs cs m' ip h' oks in
    (
      m'',
      es ++ es',
      rw (ran, ran') refl,
      h'',
      omega (arith, told, told', notifications-append es es'),
    )
