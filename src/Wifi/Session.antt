-- ===== src/Wifi/Session.antt =====
-- Calls of the WiFi functions of Sources/Wifi/ARNETWORKAL_WifiNetwork.c in any order, as the threads
-- of an application make them, each call whole.
pub mod Links
pub mod Receiver
pub mod Run
pub mod Threads
use lib_arnetwork_al.Prelude.{
  ℕ, ◌+◌, ◌≡◌, ◌<◌, Bool, false, ◌&&◌, Option, some, List, [], ◌∷◌, ◌++◌, length, is_neg,
  if◌then◌else◌, ◌>>=◌, u32_mod,
}
use lib_arnetwork_al.Platform.{Platform, Memory, read_bytes}
use lib_arnetwork_al.Frame.{Frame, header_size}
use lib_arnetwork_al.Wifi.{
  WifiObject, Manager, Event, notified, dumped, transmitted, drained, is_connected, IsSender,
  IsReceiver,
}
use lib_arnetwork_al.Wifi.Push.{OutQueue, push_frame, data_size}
use lib_arnetwork_al.Wifi.Pop.{pop_frame}
use lib_arnetwork_al.Wifi.Send.{SendReply, send}
use lib_arnetwork_al.Wifi.Receive.{Replies, receive}
use lib_arnetwork_al.Wifi.Receive.Refine.{AreReplies}

-- A call, with what the system answers.
pub data Call : Type 0 where
  push : Memory → OutQueue → Frame → Call
  pop : Frame → Call
  send_all : SendReply → Call
  receive_next : Replies → Call

unfoldable pub call : Platform → Manager → Call → Option (Manager × List Event)
call p m (push mem reply f) = push_frame p mem reply m f >>= λ (r, m', es). some (m', es)
call p m (pop f) = pop_frame p m f >>= λ (r, m', f', es). some (m', es)
call p m (send_all reply) = send reply m >>= λ (r, m', es). some (m', es)
call p m (receive_next env) = receive p env m >>= λ (r, m', es). some (m', es)

-- Some calls, with all that they do.
unfoldable pub run : Platform → List Call → Manager → Option (Manager × List Event)
run p [] m = some (m, [])
run p (c ∷ cs) m = call p m c >>= λ (m', es). run p cs m' >>= λ (m'', es'). some (m'', es ++ es')

-- The caller's frame has the size of its head and of data that can be read; the system's answers
-- respect the room that they are given.
abbrev pub IsCall : Platform → Call → Type 0
IsCall p (push mem reply f) =
    (payload : List ℕ) × (f.size ≡ header_size + length payload)
    × (f.size + 65536 < u32_mod)
    × (read_bytes mem f.data_ptr (data_size f) ≡ some payload)
IsCall p (pop f) = Unit {0}
IsCall p (send_all reply) = Unit {0}
IsCall p (receive_next env) = AreReplies p env

abbrev pub AllCalls : Platform → List Call → Type 0
AllCalls p [] = Unit {0}
AllCalls p (c ∷ cs) = IsCall p c × AllCalls p cs

-- How often the application was told of a disconnection.
abbrev pub notifications : List Event → ℕ
notifications [] = 0
notifications (notified callback d ∷ es) = 1 + notifications es
notifications (dumped tag a n ∷ es) = notifications es
notifications (transmitted socket bytes ∷ es) = notifications es
notifications (drained fifo ∷ es) = notifications es

-- How often it can still be: once, until one of the two objects is disconnected.
abbrev pub budget : WifiObject → WifiObject → ℕ
budget s r = if is_connected (some s) && is_connected (some r) then 1 else 0

-- What the transfer functions ask of a manager: both objects valid, the receiver's descriptors open,
-- and the application's callback on both.
pub record IsSession (p : Platform) (s r : WifiObject) : Type 0 where
  pub sender_valid : IsSender p s
  pub receiver_valid : IsReceiver p r
  pub socket_open : is_neg r.socket ≡ false
  pub fifo_open : is_neg r.fifo_read ≡ false
  pub sender_callback : ℕ
  pub sender_tells : s.on_disconnect ≡ some sender_callback
  pub receiver_callback : ℕ
  pub receiver_tells : r.on_disconnect ≡ some receiver_callback
