-- ===== src/Ble/Transfer.antt =====
-- A frame that crosses the BLE network of Sources/BLE/ARNETWORKAL_BLENetwork.m: what pushFrame writes to
-- a characteristic, and what popFrame makes of the notification that another side gets of it.
use lib_arnetwork_al.Prelude.{
  Bool, List, [], add_u32, add_word, ap, arith, get_elem?, if◌then◌else◌, leb, leb-true, length,
  ltb, not, some, sub_word, true, u32_mod, ℕ, ◌%◌, ◌+◌, ◌<◌, ◌^◌, ◌++◌, ◌∙◌, ◌∷◌, ◌≡◌, ◌≤◌, refl,
}
use lib_arnetwork_al.Platform.{Memory, block, read_bytes}
use lib_arnetwork_al.Frame.{
  Frame, Return, bad_frame, buffer_empty, default, header_size, reset_frame,
}
use lib_arnetwork_al.Ble.{
  BleEvent, BleNetwork, Characteristic, NotificationData, Service, sal_ok, wrote,
}
use lib_arnetwork_al.Ble.Queue.{ble_pop_frame_refines}
use lib_arnetwork_al.Ble.Frames.{
  ble_network_header_size, ble_network_max_buffer_size, ble_network_media_mtu, ble_pop_frame,
  ble_push_frame, ble_receive,
}

-- What a push does, as a specification: a payload of at most 18 bytes is written behind the type and the
-- sequence number, and counted if it is taken; a longer one is refused.
abbrev pub written_outcome :
    (written : Bool)
    → (characteristic : ℕ) → BleNetwork
    → Frame
    → (payload : List ℕ) → Return × BleNetwork × List BleEvent
written_outcome written characteristic n f payload =
    if leb (length payload) ble_network_max_buffer_size
    then (
      if written then default else bad_frame,
      if written
          then record n { bw_current_up = add_u32 n.bw_current_up (2 + length payload) }
          else n,
      wrote (f.type ∷ f.seq ∷ payload) (some characteristic) ∷ [],
    )
    else (bad_frame, n, [])

too_long :
    (k : ℕ)
    → k < 2 ^ 31
    → ltb ble_network_media_mtu (add_word k ble_network_header_size)
      ≡ not (leb k ble_network_max_buffer_size)
too_long k small = ground arith

-- Where the sender's service has a characteristic at the frame's identifier, a frame whose size is that
-- of its head and of its readable data, of less than 2^31 bytes, is written to that characteristic just
-- where the data have at most MAX_BUFFER_SIZE bytes: the type, the sequence number and the data. It
-- returns DEFAULT, and adds what was written to the upload counter, where the BLE manager takes it, and
-- BAD_FRAME where it does not; a longer frame is BAD_FRAME, and nothing is written.
pub ble_push_frame-bounds :
    (mem : Memory) (written : Bool) (n : BleNetwork) (s : Service) (c : Characteristic) (f : Frame)
    (payload : List ℕ)
    → n.send_service ≡ some s
    → get_elem? s.characteristics f.id ≡ some c
    → length payload < 2 ^ 31
    → f.size ≡ header_size + length payload
    → read_bytes mem f.data_ptr (length payload) ≡ some payload
    → ble_push_frame mem written n f ≡ some (written_outcome written c.reference n f payload)
unfolding ble_push_frame
ble_push_frame-bounds mem written n s c f payload at found small size read =
    let k = length payload in
    let d : sub_word f.size header_size ≡ k = omega (arith, size, small) in
    let e : k % u32_mod ≡ k = omega (arith, small) in
    simp (d, e, read, at, found, too_long k small) (ground arith)

-- A frame with at most MAX_BUFFER_SIZE bytes of readable data and an identifier of one byte, pushed and
-- taken: PushFrame returns DEFAULT. A side that gets what was written as a notification of a
-- characteristic of that identifier, with nothing else in its array, pops DEFAULT and a frame of the
-- same type, identifier, sequence number and size, whose pointer leads to the data in the notification;
-- the next PopFrame is BUFFER_EMPTY. Both sides counted the same number of bytes.
pub ble_transfer :
    (mem : Memory) (n n' : BleNetwork) (s : Service) (c : Characteristic) (f f' : Frame)
    (payload : List ℕ) (address : ℕ)
    → n.send_service ≡ some s
    → get_elem? s.characteristics f.id ≡ some c
    → length payload ≤ ble_network_max_buffer_size
    → f.id < 256
    → f.size ≡ header_size + length payload
    → read_bytes mem f.data_ptr (length payload) ≡ some payload
    → n'.recv_array ≡ []
    → let bytes : List ℕ = f.type ∷ f.seq ∷ payload in
      let d : NotificationData = record {
        scanned_id = some f.id;
        address = address;
        value = bytes;
      } in
      let received : Return × BleNetwork = ble_receive sal_ok (d ∷ []) n' in
      let popped : BleNetwork = record n' {
        recv_array = [];
        bw_current_down = add_u32 n'.bw_current_down (2 + length payload);
      } in
      (ble_push_frame mem true n f
        ≡ some (
          default,
          record n { bw_current_up = add_u32 n.bw_current_up (2 + length payload) },
          wrote bytes (some c.reference) ∷ [],
        ))
      × (received.0 ≡ default)
      × (ble_pop_frame received.1 f' ≡ some (default, popped, record f { data_ptr = address + 2 }))
      × (read_bytes (block address bytes) (address + 2) (length payload) ≡ some payload)
      × (ble_pop_frame popped f' ≡ some (buffer_empty, popped, reset_frame f'))
unfolding ble_pop_frame
ble_transfer mem n n' s c f f' payload address at found fits id size read nothing =
    let d : NotificationData = record {
      scanned_id = some f.id;
      address = address;
      value = f.type ∷ f.seq ∷ payload;
    } in
    let waits : BleNetwork = record n' { recv_array = d ∷ [] } in
    let arrived : record n' { recv_array = n'.recv_array ++ (d ∷ []) } ≡ waits =
      ap (λ queue. record n' { recv_array = queue ++ (d ∷ []) }) nothing in
    let same_id : f.id % 256 ≡ f.id = omega (arith, id) in
    let same_size : (header_size + length payload) % u32_mod ≡ f.size = omega (arith, fits, size) in
    let (pops, holds) = ble_pop_frame_refines waits f' (tt, tt) in
    (
      ble_push_frame-bounds mem true n s c f payload at found (omega (arith, fits)) size read
          ∙ rw (leb-true (length payload) ble_network_max_buffer_size fits) refl,
      refl,
      ap (λ x. ble_pop_frame x f') arrived ∙ (pops ∙ rw (same_id, same_size) refl),
      holds,
      refl,
    )
