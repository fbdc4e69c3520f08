-- ===== src/Tests/WifiFrames.antt =====
-- WiFi: frames pushed, sent, received and popped.
use lib_arnetwork_al.Wifi.Pop.Loop.{Ends, HeadsHaveSize, pop_all, pop_all-Ends, pop_all-stuck}
use lib_arnetwork_al.Prelude.{none, ◌++◌, ◌≡◌, refl, false, some, List, [], ◌∷◌, arith, replicate}
use lib_arnetwork_al.Platform.{eagain, read_bytes, read_u32, write_bytes}
use lib_arnetwork_al.Frame.{Frame, Return, network_error, default, buffer_empty, bad_frame, parse}
use lib_arnetwork_al.Wifi.{
  WifiObject, Manager, Event, IsSender, IsReceiver, IsReceiver-IsBuffer, dumped, frame_pushed,
  unread, pending,
}
use lib_arnetwork_al.Wifi.Push.{
  OutQueue, queued, push_frame, copy_frame, append_field, get_available_send_size,
}
use lib_arnetwork_al.Wifi.Push.Refine.{Pushed, enqueue, push_frame_refines}
use lib_arnetwork_al.Wifi.Pop.{pop_frame, read_header}
use lib_arnetwork_al.Wifi.Pop.Refine.{expected, pop_frame_refines}
use lib_arnetwork_al.Wifi.Pop.Safety.{pop_frame-IsReceiver}
use lib_arnetwork_al.Wifi.Send.{sent, send_failed, send}
use lib_arnetwork_al.Wifi.Receive.{receive}
use lib_arnetwork_al.Wifi.Transfer.{AllMessages, drain, drain-datagram}
use lib_arnetwork_al.Wifi.Transfer.Outgoing.{AllCarry, push_all}
use lib_arnetwork_al.Wifi.Transfer.Whole.{transfer}
use lib_arnetwork_al.Wifi.Send.Refine.{transmissions, send_refines}
use lib_arnetwork_al.Wifi.Receive.Refine.{receive_refines}
use lib_arnetwork_al.Tests.Data.{
  both_received, holding, both_received-IsReceiver, platform, platform-IsPlatform, fresh,
  fresh-IsSender, fresh-IsReceiver, manager, caller, replies, replies-AreReplies, first, second,
  first_frame, second_frame, no_frame, first_bytes, both_bytes,
}

-- The sender after the first frame.
abbrev one_pushed : WifiObject
one_pushed = record fresh {
  bytes = first_bytes ++ replicate 23 0;
  current_frame = 8589934601;
  size = 9;
}

push_first :
    push_frame platform caller (queued 0) manager first_frame
    ≡ some (
      default,
      record manager { sender = some one_pushed },
      dumped frame_pushed 8589934592 9 ∷ [],
    )
unfolding push_frame copy_frame append_field get_available_send_size read_bytes write_bytes
push_first = refl

push_frame_refines_example :
    Pushed platform manager
      (enqueue 32 (get_available_send_size (queued 0) fresh).0 [] first_bytes)
      (push_frame platform caller (queued 0) manager first_frame)
unfolding read_bytes
push_frame_refines_example =
    push_frame_refines caller (queued 0) manager fresh first_frame (7 ∷ 8 ∷ []) platform-IsPlatform
      fresh-IsSender refl refl (omega arith) refl

pop_frame_refines_example :
    pop_frame platform holding no_frame
    ≡ some (expected holding both_received no_frame (parse platform both_bytes))
pop_frame_refines_example =
    pop_frame_refines holding both_received no_frame platform-IsPlatform both_received-IsReceiver
      refl

pop_frame-IsReceiver_example :
    (r : Return) × (o' : WifiObject) × (f' : Frame) × (events : List Event) × (pop_frame platform
        holding no_frame
      ≡ some (r, record holding { receiver = some o' }, f', events))
    × IsReceiver platform o'
pop_frame-IsReceiver_example =
    pop_frame-IsReceiver holding both_received no_frame platform-IsPlatform both_received-IsReceiver
      refl

both-HeadsHaveSize : HeadsHaveSize platform 18 both_bytes
unfolding parse
both-HeadsHaveSize = (omega arith, (omega arith, tt))

pop_all-Ends_example : Ends platform 18 holding no_frame
pop_all-Ends_example =
    pop_all-Ends 18 holding both_received no_frame platform-IsPlatform both_received-IsReceiver refl
      (omega arith) both-HeadsHaveSize

-- A head of 7 bytes that are all 0.
abbrev empty_head : WifiObject
empty_head = record fresh { size = 7 }

empty_head-IsReceiver : IsReceiver platform empty_head
empty_head-IsReceiver = omega arith

abbrev holding_empty : Manager
holding_empty = record manager { receiver = some empty_head }

pop_all-stuck_example :
    ((f' : Frame) × (es : List Event) × (pop_frame platform holding_empty no_frame
        ≡ some (default, holding_empty, f', es)))
    × (pop_all platform 1000 holding_empty no_frame ≡ none)
unfolding parse
pop_all-stuck_example =
    pop_all-stuck 1000 holding_empty empty_head no_frame 0 0 0 (replicate 7 0) platform-IsPlatform
      empty_head-IsReceiver refl refl

-- A frame whose size goes past what was received.
pop_truncated :
    pop_frame platform
      (record manager {
        receiver = some (record fresh { bytes = first_bytes ++ replicate 23 0; size = 8 });
      })
      no_frame
    ≡ some (
      bad_frame,
      record manager { receiver = some (record fresh { bytes = first_bytes ++ replicate 23 0 }) },
      no_frame,
      [],
    )
unfolding pop_frame read_header read_u32
pop_truncated = refl

messages : AllMessages (first ∷ second ∷ [])
messages = omega arith

drain-datagram_example :
    drain platform 3 holding no_frame
    ≡ some (
      first ∷ second ∷ [],
      buffer_empty,
      record holding { receiver = some (record fresh { bytes = both_bytes ++ replicate 15 0 }) },
    )
drain-datagram_example =
    drain-datagram (first ∷ second ∷ []) 3 holding no_frame both_received platform-IsPlatform
      both_received-IsReceiver refl messages refl (omega arith)

-- Both pushed.
abbrev both_pushed : WifiObject
both_pushed = record both_received { current_frame = 8589934609 }

abbrev frames : List (OutQueue × Frame)
frames = (queued 0, first_frame) ∷ (queued 100, second_frame) ∷ []

frames_carry : AllCarry caller frames (first ∷ second ∷ [])
unfolding read_bytes
frames_carry = (
  record { type = refl; id = refl; seq = refl; size = refl; payload = refl },
  (record { type = refl; id = refl; seq = refl; size = refl; payload = refl }, tt),
)

pushed_both :
    push_all platform caller frames manager ≡ some (record manager { sender = some both_pushed })
unfolding push_all push_frame copy_frame append_field get_available_send_size read_bytes write_bytes
pushed_both = refl

send_refines_example :
    (r : Return) × (o' : WifiObject) × (events : List Event) × (send
        (send_failed eagain)
        (record manager { sender = some both_pushed })
      ≡ some (r, record manager { sender = some o' }, events))
    × IsSender platform o'
    × (r ≡ network_error)
    × (pending o' ≡ [])
    × (transmissions events ≡ both_bytes ∷ [])
send_refines_example =
    send_refines (send_failed eagain) (record manager { sender = some both_pushed }) both_pushed
      (omega arith) refl

receive_refines_example :
    (r : Return) × (o' : WifiObject) × (events : List Event) × (receive platform replies manager
      ≡ some (r, record manager { receiver = some o' }, events))
    × IsReceiver platform o'
    × (r ≡ default)
    × (unread o' ≡ both_bytes)
receive_refines_example =
    receive_refines replies manager fresh (IsReceiver-IsBuffer fresh-IsReceiver) replies-AreReplies
      refl refl refl

transfer_example :
    (sent_by : Manager) × (sending receiving : List Event) × (received_by drained_by : Manager)
    × (send (sent 17) (record manager { sender = some both_pushed })
        ≡ some (default, sent_by, sending))
    × (transmissions sending ≡ both_bytes ∷ [])
    × (receive platform replies manager ≡ some (default, received_by, receiving))
    × (drain platform 3 received_by no_frame ≡ some (first ∷ second ∷ [], buffer_empty, drained_by))
transfer_example =
    transfer caller frames first (second ∷ []) manager
      (record manager { sender = some both_pushed }) fresh 17 replies manager fresh false no_frame
      platform-IsPlatform fresh-IsSender refl refl messages frames_carry pushed_both
      fresh-IsReceiver refl refl refl replies-AreReplies refl refl refl
