-- ===== src/Wifi/Lifecycle/Setup.antt =====
-- A manager from New to its first reception.
pub mod Objects
use lib_arnetwork_al.Wifi.Lifecycle.Setup.Objects.{
  AreMallocs, AreOpened, receiver_up, sender_up, set_up, set_up-objects,
}
use lib_arnetwork_al.Prelude.{
  AllBytes, List, Option, ap, arith, false, is_neg, length, none, refl, some, u32_mod, word_mod, ℕ,
  ℤ, ◌+◌, ◌<◌, ◌∙◌, ◌≡◌, ◌≤◌,
}
use lib_arnetwork_al.Platform.{IsPlatform, Platform}
use lib_arnetwork_al.Errors.{Error, ok}
use lib_arnetwork_al.Frame.{Return}
use lib_arnetwork_al.Wifi.{
  Event, IsBuffer, IsSender, Manager, WifiObject, receiving_buffer_size, sending_buffer_size,
}
use lib_arnetwork_al.Wifi.Receive.{Replies, receive}
use lib_arnetwork_al.Wifi.Receive.Refine.{AreReplies, receive_refines}
use lib_arnetwork_al.Wifi.Bandwidth.Window.{IsMeter}
use lib_arnetwork_al.Wifi.Session.{budget, notifications}
use lib_arnetwork_al.Wifi.Session.Links.{Post-elim}
use lib_arnetwork_al.Wifi.Session.Receiver.{ReceiverStep, receive-Linked}
use lib_arnetwork_al.Wifi.Session.Run.{IsReady, left, some-injective}
use lib_arnetwork_al.Wifi.Lifecycle.{
  open_descriptors, Allocation, Mallocs, SetupReplies, bind, connect, give_receiver_buffer,
  give_sender_buffer, init_object, new, set_on_disconnect_callback, to_u32,
}

-- Where `malloc` gives all four blocks and the system opens both ends, New, Connect, Bind and
-- SetOnDisconnectCallback return OK, and leave both objects connected, with whole bandwidth rings;
-- whatever the system then answers to the first call of Receive, it returns and leaves the manager
-- ready for every sequence of calls of the transfer functions.
pub set_up-IsReady :
    {p : Platform} {so ro : WifiObject} {sb rb : Allocation} {rs ws rr wr : ℤ} (ms : Mallocs)
    (env_s env_r : SetupReplies) (t : ℤ) (callback custom_data : ℕ) (m : Manager) (env : Replies)
    → IsPlatform p
    → AreMallocs p ms so ro sb rb
    → AreOpened env_s rs ws
    → AreOpened env_r rr wr
    → AreReplies p env
    → (m1 : Manager) × (set_up ms env_s env_r t callback custom_data m
        ≡ ((ok, ok, ok, ok), some m1))
      × (s r : WifiObject) × (m1.sender ≡ some s)
      × (m1.receiver ≡ some r)
      × (budget s r ≡ 1)
      × IsMeter s
      × IsMeter r
      × (code : Return) × (m2 : Manager) × (events : List Event) × (receive p env m1
          ≡ some (code, m2, events))
      × (ready' : IsReady p m2) × (notifications events + left ready' ≡ 1)
set_up-IsReady {p} {so} {ro} {sb} {rb} {rs} {ws} {rr} {wr} ms env_s env_r t callback custom_data m
      env ip h os or ve =
    let s = sender_up env_s rs ws callback custom_data so sb in
    let r = receiver_up env_r rr wr t callback custom_data ro rb in
    let m1 = record m { sender = some s; receiver = some r } in
    let v : IsBuffer p r = record {
      allocated = h.receiver_size;
      above = h.receiver_above;
      placed = h.receiver_placed;
      filled = omega arith;
      octets = h.receiver_octets;
    } in
    let vs : IsSender p s = record {
      allocated = h.sender_size;
      placed = h.sender_placed;
      filled = omega arith;
      behind = omega arith;
    } in
    let (code, r', events, ran, v', _, _) =
      receive_refines env m1 r v ve refl or.socket_open or.pipe_open in
    let (r'', e, linked) =
      Post-elim (λ out. ReceiverStep s r out.1 out.2) (receive p env m1) _ ran
        (receive-Linked p env m1 s r callback refl refl refl or.socket_open or.pipe_open) in
    let same = some-injective e in
    (
      m1,
      set_up-objects ms env_s env_r t callback custom_data m h os or,
      s,
      r,
      refl,
      refl,
      refl,
      record { whole = refl; inside = omega arith },
      record { whole = refl; inside = omega arith },
      code,
      record m1 { receiver = some r' },
      events,
      ran,
      record {
        sender_object = s;
        receiver_object = r'';
        at_sender = refl;
        at_receiver = e;
        session = record {
          sender_valid = vs;
          receiver_valid = rw same at v';
          socket_open = ap is_neg linked.socket ∙ or.socket_open;
          fifo_open = ap is_neg linked.fifo ∙ or.pipe_open;
          sender_callback = callback;
          sender_tells = refl;
          receiver_callback = callback;
          receiver_tells = linked.callback;
        };
      },
      linked.told,
    )
