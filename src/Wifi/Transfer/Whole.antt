-- ===== src/Wifi/Transfer/Whole.antt =====
-- From the first push to the last pop.
use lib_arnetwork_al.Prelude.{
  ℕ, ◌+◌, ◌≡◌, refl, ap, ◌∙◌, Bool, true, false, some, List, [], ◌∷◌, ◌++◌, arith, length, take,
  is_neg,
}
use lib_arnetwork_al.Platform.{Platform, IsPlatform, Memory}
use lib_arnetwork_al.Frame.{Frame, default, buffer_empty}
use lib_arnetwork_al.Frame.Codec.{Message}
use lib_arnetwork_al.Wifi.{
  WifiObject, Manager, Event, IsSender, IsReceiver, IsReceiver-IsBuffer, pending,
}
use lib_arnetwork_al.Wifi.Push.{OutQueue}
use lib_arnetwork_al.Wifi.Send.{sent, send}
use lib_arnetwork_al.Wifi.Send.Refine.{transmissions, flush_queue, send_refines}
use lib_arnetwork_al.Wifi.Receive.{Replies, ready, received, first_date, receive}
use lib_arnetwork_al.Wifi.Receive.Refine.{AreReplies, flushes, read_result, receive_refines}
use lib_arnetwork_al.Wifi.Pop.{rewind}
use lib_arnetwork_al.Wifi.Transfer.{datagram, AllMessages, drain, drain-datagram}
use lib_arnetwork_al.Wifi.Transfer.Outgoing.{AllCarry, push_all, push_all-datagram}

-- A sender with nothing to send hands one datagram over.
pub send-datagram :
    {p : Platform} (mem : Memory) (fs : List (OutQueue × Frame)) (g : Message) (gs : List Message)
    (m m' : Manager) (o : WifiObject) (n : ℕ)
    → IsPlatform p
    → IsSender p o
    → m.sender ≡ some o
    → o.size ≡ 0
    → AllMessages (g ∷ gs)
    → AllCarry mem fs (g ∷ gs)
    → push_all p mem fs m ≡ some m'
    → (o' : WifiObject) × (events : List Event) × (send (sent n) m'
        ≡ some (default, record m { sender = some o' }, events))
      × (transmissions events ≡ datagram p (g ∷ gs) ∷ [])
      × IsSender p o'
      × (pending o' ≡ [])
send-datagram {p} mem fs g gs m m' o n ip v at none_waits vgs cs ran =
    let (o1, same, v1, bytes) = push_all-datagram mem fs (g ∷ gs) m m' o ip v at vgs cs ran in
    let waits : pending o1 ≡ datagram p (g ∷ gs) =
      bytes ∙ ap (λ k. take k o.bytes ++ datagram p (g ∷ gs)) none_waits in
    let (r, o', events, sent_all, v', code, left, handed) =
      send_refines (sent n) m' o1 v1 (ap (λ (k : Manager). k.sender) same) in
    let code' : r ≡ default = code ∙ ap (λ q. (flush_queue (sent n) q).0) waits in
    (
      o',
      events,
      sent_all ∙ (λ i. some (code' i, record (same i) { sender = some o' }, events)),
      handed ∙ ap (λ q. (flush_queue (sent n) q).2) waits,
      v',
      left ∙ ap (λ q. (flush_queue (sent n) q).1) waits,
    )

-- A whole transfer. A caller pushes frames on a valid sender with nothing to send, each call returns
-- DEFAULT, and it calls Send, which the socket takes. Then the socket was handed one datagram, the
-- encodings of the frames in order. If a valid receiver on the other side reads just this datagram,
-- with no flush, its Receive returns DEFAULT, and calls of PopFrame give the frames in order, each
-- with its data, and then BUFFER_EMPTY.
pub transfer :
    {p : Platform} (mem : Memory) (fs : List (OutQueue × Frame)) (g : Message) (gs : List Message)
    (m m' : Manager) (o : WifiObject) (n : ℕ) (env : Replies) (mr : Manager) (or : WifiObject)
    (fifo : Bool) (f : Frame)
    → IsPlatform p
    → IsSender p o
    → m.sender ≡ some o
    → o.size ≡ 0
    → AllMessages (g ∷ gs)
    → AllCarry mem fs (g ∷ gs)
    → push_all p mem fs m ≡ some m'
    → IsReceiver p or
    → mr.receiver ≡ some or
    → is_neg or.socket ≡ false
    → is_neg or.fifo_read ≡ false
    → AreReplies p env
    → env.select ≡ ready true fifo
    → flushes p env (first_date env.at_start or) ≡ false
    → env.recv ≡ received (datagram p (g ∷ gs))
    → (sent_by : Manager) × (sending receiving : List Event) × (received_by drained_by : Manager)
      × (send (sent n) m' ≡ some (default, sent_by, sending))
      × (transmissions sending ≡ datagram p (g ∷ gs) ∷ [])
      × (receive p env mr ≡ some (default, received_by, receiving))
      × (drain p (length (g ∷ gs) + 1) received_by f ≡ some (g ∷ gs, buffer_empty, drained_by))
transfer {p} mem fs g gs m m' o n env mr or fifo f ip v at none_waits vgs cs ran vr atr open_socket
      open_fifo ve selected fresh read =
    let (o', sending, sent_all, handed, v', left) =
      send-datagram mem fs g gs m m' o n ip v at none_waits vgs cs ran in
    let (r, or', receiving, got_all, vr', code, content) =
      receive_refines env mr or (IsReceiver-IsBuffer vr) ve atr open_socket open_fifo in
    let result : (read_result p env (first_date env.at_start or) or'.bytes)
        ≡ (default, datagram p (g ∷ gs)) =
      rw (selected, fresh, read) in
    (
      record m { sender = some o' },
      sending,
      receiving,
      record mr { receiver = some or' },
      record mr { receiver = some (rewind or') },
      sent_all,
      handed,
      got_all
          ∙ ap (λ c. some (c, record mr { receiver = some or' }, receiving))
              (code ∙ ap (λ x. x.0) result),
      drain-datagram (g ∷ gs) (length (g ∷ gs) + 1) (record mr { receiver = some or' }) f or' ip vr'
          refl vgs (content ∙ ap (λ x. x.1) result) (omega arith),
    )
