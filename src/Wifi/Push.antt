-- ===== src/Wifi/Push.antt =====
-- ARNETWORKAL_WifiNetwork_PushFrame and ARNETWORKAL_WifiNetwork_GetAvailableSendSize of
-- Sources/Wifi/ARNETWORKAL_WifiNetwork.c.

pub mod Copy
pub mod Refine
use lib_arnetwork_al.Prelude.{
  ℕ, ◌-◌, ◌%◌, Bool, true, false, Option, none, some, List, [], ◌∷◌, ltb, leb, length, ℤ, pos,
  negsuc, minus_one, sub_ℕ, is_neg, add_u32, add_word, sub_word, u32_mod, if◌then◌else◌, ◌>>=◌,
}
use lib_arnetwork_al.Platform.{
  Platform, Memory, Errno, eagain, eacces, enxio, etimedout, other, read_bytes, write_bytes,
  u32_bytes,
}
use lib_arnetwork_al.Frame.{Frame, Return, default, buffer_full, header_size}
use lib_arnetwork_al.Wifi.{WifiObject, Manager, Event, dumped, frame_pushed, sending_buffer_size}

-- What `ioctl (sockfd, TIOCOUTQ, …)` gives: the bytes that wait in the socket, or the `errno`.
pub data OutQueue : Type 0 where
  queued : ℕ → OutQueue
  failed : Errno → OutQueue

abbrev pub is_enxio : Errno → Bool
is_enxio enxio = true
is_enxio eagain = false
is_enxio eacces = false
is_enxio etimedout = false
is_enxio other = false

-- `buffSize - currentBytesInSocket`, 0 in place of what is negative. The size is not negative here.
abbrev pub space_left : ℤ → ℕ → ℤ
space_left (pos size) n = let d = sub_ℕ size n in if is_neg d then pos 0 else d
space_left (negsuc k) n = pos 0

-- ARNETWORKAL_WifiNetwork_GetAvailableSendSize
unfoldable pub get_available_send_size : OutQueue → WifiObject → ℤ × WifiObject
get_available_send_size reply o =
    if is_neg o.socket_buffer_size then (minus_one, o) else elim reply [
      | queued n ↦ (space_left o.socket_buffer_size n, o)
      | failed e ↦
          (minus_one, if is_enxio e then record o { socket_buffer_size = minus_one } else o)
    ]

-- `memcpy (wifiSendObj->currentFrame, …)` of some bytes, and the two additions that follow each.
unfoldable pub append_field : List ℕ → WifiObject → Option WifiObject
append_field src o =
    if leb o.buffer o.current_frame
    then (write_bytes o.bytes (o.current_frame - o.buffer) src >>= λ bytes. some (record o {
      bytes = bytes;
      current_frame = add_word o.current_frame (length src);
      size = add_u32 o.size (length src);
    }))
    else none

-- `frame->size - offsetof (ARNETWORKAL_Frame_t, dataPtr)`, kept in a `uint32_t`
abbrev pub data_size : Frame → ℕ
data_size f = sub_word f.size header_size % u32_mod

-- The frame's fields into the buffer, and the data after them.
unfoldable pub copy_frame : Platform → Memory → Frame → WifiObject → Option WifiObject
copy_frame p mem f o = do
  o ← append_field (f.type ∷ []) o
  o ← append_field (f.id ∷ []) o
  o ← append_field (f.seq ∷ []) o
  o ← append_field (u32_bytes (p.htodl f.size)) o
  payload ← read_bytes mem f.data_ptr (data_size f)
  append_field payload o

-- The available space is known, and less than the size.
abbrev pub is_short : ℤ → ℕ → Bool
is_short (pos n) size = ltb n size
is_short (negsuc k) size = false

-- ARNETWORKAL_WifiNetwork_PushFrame
unfoldable pub push_frame :
    Platform → Memory → OutQueue → Manager → Frame → Option (Return × Manager × List Event)
push_frame p mem reply m f = do
  o ← m.sender
  let next_size = add_u32 o.size f.size
  if ltb (sending_buffer_size p) next_size then some (buffer_full, m, []) else do
    let (available, o) = get_available_send_size reply o
    if is_short available next_size
        then some (buffer_full, record m { sender = some o }, [])
        else do
          o ← copy_frame p mem f o
          some (
            default,
            record m { sender = some o },
            if m.dump_file
                then dumped frame_pushed (sub_word o.current_frame f.size) f.size ∷ []
                else [],
          )
