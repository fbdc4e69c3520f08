-- ===== src/Ble/Frames.antt =====
-- pushFrame, popFrame and receive of Sources/BLE/ARNETWORKAL_BLENetwork.m, and what
-- ARNETWORKAL_BLENetwork_PushFrame, _PopFrame, _Send and _Receive make of them.
use lib_arnetwork_al.Prelude.{
  Bool, List, Option, [], add_u32, add_word, get_elem?, if◌then◌else◌, length, ltb, none, some,
  sub_word, u32_mod, ℕ, ◌%◌, ◌++◌, ◌+◌, ◌-◌, ◌==◌, ◌>>=◌, ◌∷◌,
}
use lib_arnetwork_al.Platform.{Memory, block, read_bytes}
use lib_arnetwork_al.Frame.{
  Frame, Return, bad_frame, buffer_empty, default, header_size, no_data_available, reset_frame,
}
use lib_arnetwork_al.Ble.{
  is_sal_ok, BleEvent, BleNetwork, NotificationData, SalError, Service, wrote,
}

-- ARNETWORKAL_BLENETWORK_MEDIA_MTU, ARNETWORKAL_BLENETWORK_HEADER_SIZE and
-- ARNETWORKAL_BLENETWORK_MAX_BUFFER_SIZE
abbrev pub ble_network_media_mtu : ℕ
ble_network_media_mtu = 20

abbrev pub ble_network_header_size : ℕ
ble_network_header_size = 2

abbrev pub ble_network_max_buffer_size : ℕ
ble_network_max_buffer_size = ble_network_media_mtu - ble_network_header_size

-- `[[_sendService characteristics] objectAtIndex:frame->id]`: nil of a nil service, and an exception
-- out of range.
abbrev pub characteristic_to_send : Option Service → (id : ℕ) → Option (Option ℕ)
characteristic_to_send none id = some none
characteristic_to_send (some s) id = get_elem? s.characteristics id >>= λ c. some (some c.reference)

-- pushFrame; `written` is what writeData answers.
unfoldable pub ble_push_frame :
    Memory → (written : Bool) → BleNetwork → Frame → Option (Return × BleNetwork × List BleEvent)
ble_push_frame mem written n f =
    let room = add_word (sub_word f.size header_size) ble_network_header_size in
    if ltb ble_network_media_mtu room then some (bad_frame, n, []) else do
      payload ← read_bytes mem f.data_ptr (sub_word f.size header_size % u32_mod)
      characteristic ← characteristic_to_send n.send_service f.id
      let bytes = f.type ∷ f.seq ∷ payload
      if written
          then some (
            default,
            record n { bw_current_up = add_u32 n.bw_current_up (length bytes) },
            wrote bytes characteristic ∷ [],
          )
          else some (bad_frame, n, wrote bytes characteristic ∷ [])

-- The fields of the frame, out of a notification's bytes.
unfoldable pub notified_frame : (id : ℕ) → NotificationData → Frame → Option Frame
notified_frame id d f = do
  let memory = block d.address d.value
  type ← memory d.address
  seq ← memory (d.address + 1)
  some (record f {
    type = type;
    id = id % 256;
    seq = seq;
    size = add_word (sub_word (length d.value) 2) header_size % u32_mod;
    data_ptr = d.address + 2;
  })

-- popFrame
unfoldable pub ble_pop_frame : BleNetwork → Frame → Option (Return × BleNetwork × Frame)
ble_pop_frame n f = elim n.recv_array [
  | [] ↦ some (buffer_empty, n, reset_frame f)
  | d ∷ rest ↦
      if length d.value == 0
      then some (bad_frame, record n { recv_array = rest }, reset_frame f)
      else elim d.scanned_id [
        | none ↦ some (bad_frame, record n { recv_array = rest }, reset_frame f)
        | some id ↦ do
          f ← notified_frame id d f
          some (
            default,
            record n {
              recv_array = rest;
              bw_current_down = add_u32 n.bw_current_down (length d.value);
            },
            f,
          )
      ]
]

-- receive: what readNotificationData answers, and the notifications that it appends to the array.
abbrev pub ble_receive : SalError → List NotificationData → BleNetwork → Return × BleNetwork
ble_receive answer notifications n = (
  if is_sal_ok answer then default else no_data_available,
  record n { recv_array = n.recv_array ++ notifications },
)

-- ARNETWORKAL_BLENetwork_Send
abbrev pub ble_send : Option BleNetwork → Return
ble_send n = default
