-- ===== src/Ble/Queue.antt =====
-- popFrame of Sources/BLE/ARNETWORKAL_BLENetwork.m as the head of a queue of messages.
use lib_arnetwork_al.Prelude.{
  List, Option, [], add_u32, add_word, ap, arith, leb-true, length, none, refl, some, sub_word, suc,
  take-length, u32_mod, ℕ, ◌%◌, ◌+◌, ◌-◌, ◌∙◌, ◌∷◌, ◌≡◌,
}
use lib_arnetwork_al.Platform.{block, read_bytes, read_bytes-block}
use lib_arnetwork_al.Frame.{
  Frame, Return, bad_frame, buffer_empty, default, header_size, reset_frame,
}
use lib_arnetwork_al.Frame.Codec.{Message}
use lib_arnetwork_al.Ble.{BleNetwork, NotificationData}
use lib_arnetwork_al.Ble.Frames.{ble_pop_frame, notified_frame}

abbrev pub message_of : (scanned_id : Option ℕ) → List ℕ → Option Message
message_of (some id) (type ∷ seq ∷ payload) =
    some (record { type = type; id = id % 256; seq = seq; payload = payload })
message_of scanned_id value = none

-- A notification as a message, if it is one.
abbrev pub message : NotificationData → Option Message
message d = message_of d.scanned_id d.value

-- A value that does not end behind its first byte.
abbrev pub HasHead : List ℕ → Type 0
HasHead (x ∷ []) = ⊥
HasHead value = Unit {0}

abbrev pub AllHaveHeads : List NotificationData → Type 0
AllHaveHeads [] = Unit {0}
AllHaveHeads (d ∷ ds) = HasHead d.value × AllHaveHeads ds

-- The frame that shows a message whose bytes lie at an address.
abbrev pub message_frame : (address : ℕ) → Message → Frame
message_frame address m = record {
  type = m.type;
  id = m.id;
  seq = m.seq;
  size = (header_size + length m.payload) % u32_mod;
  data_ptr = address + 2;
}

-- The messages that wait, as the caller gets them: what a call gives, and what it leaves.
abbrev pub head_answer :
    NotificationData
    → List NotificationData
    → Option Message
    → BleNetwork
    → Frame
    → Return × BleNetwork × Frame
head_answer d rest none n f = (bad_frame, record n { recv_array = rest }, reset_frame f)
head_answer d rest (some m) n f = (
  default,
  record n {
    recv_array = rest;
    bw_current_down = add_u32 n.bw_current_down (2 + length m.payload);
  },
  message_frame d.address m,
)

abbrev pub queue_answer : List NotificationData → BleNetwork → Frame → Return × BleNetwork × Frame
queue_answer [] n f = (buffer_empty, n, reset_frame f)
queue_answer (d ∷ rest) n f = head_answer d rest (message d) n f

-- The bytes that a returned frame points to.
abbrev pub HoldsPayload : NotificationData → Option Message → Type 0
HoldsPayload d none = Unit {0}
HoldsPayload d (some m) =
    read_bytes (block d.address d.value) (d.address + 2) (length m.payload) ≡ some m.payload

abbrev pub HeadHoldsPayload : List NotificationData → Type 0
HeadHoldsPayload [] = Unit {0}
HeadHoldsPayload (d ∷ rest) = HoldsPayload d (message d)

notified_frame_lem :
    (id address type seq : ℕ) (scanned : Option ℕ) (payload : List ℕ) (f : Frame)
    → notified_frame id
        (record { scanned_id = scanned; address = address; value = type ∷ seq ∷ payload })
        f
      ≡ some (
          message_frame address
            (record { type = type; id = id % 256; seq = seq; payload = payload }))
unfolding notified_frame
notified_frame_lem id address type seq scanned payload f =
    rw
      (
        leb-true address address (omega arith),
        leb-true address (address + 1) (omega arith),
        (let i : address - address ≡ 0 = omega arith in i),
        (let i : address + 1 - address ≡ 1 = omega arith in i),
        (let i : add_word (sub_word (suc (suc (length payload))) 2) header_size % u32_mod
                ≡ (header_size + length payload) % u32_mod =
              omega arith in
            i),
      )
      refl

pop_head :
    (n : BleNetwork) (f : Frame) (scanned : Option ℕ) (address : ℕ) (value : List ℕ)
    (rest : List NotificationData)
    → HasHead value
    → let d : NotificationData = record {
      scanned_id = scanned;
      address = address;
      value = value;
    } in
      let n' : BleNetwork = record n { recv_array = d ∷ rest } in
      (ble_pop_frame n' f ≡ some (head_answer d rest (message_of scanned value) n' f))
      × HoldsPayload d (message_of scanned value)
unfolding ble_pop_frame
pop_head n f none address [] rest h = (refl, tt)
pop_head n f (some id) address [] rest h = (refl, tt)
pop_head n f scanned address (x ∷ []) rest h = absurd h
pop_head n f none address (x ∷ y ∷ payload) rest h = (ground arith, tt)
pop_head n f (some id) address (x ∷ y ∷ payload) rest h = (
  rw (notified_frame_lem id address x y (some id) payload f) (ground arith),
  read_bytes-block address (x ∷ y ∷ payload) (address + 2) 2 (length payload) refl (omega arith)
      ∙ ap some (take-length payload),
)

pop_queue :
    (queue : List NotificationData) (n : BleNetwork) (f : Frame)
    → AllHaveHeads queue
    → (ble_pop_frame (record n { recv_array = queue }) f
        ≡ some (queue_answer queue (record n { recv_array = queue }) f))
      × HeadHoldsPayload queue
unfolding ble_pop_frame
pop_queue [] n f h = (refl, tt)
pop_queue (d ∷ rest) n f (h, hs) = pop_head n f d.scanned_id d.address d.value rest h

-- On a queue of which no notification's value ends behind its first byte, PopFrame gives BUFFER_EMPTY
-- where it is empty, and else takes its head off: BAD_FRAME where that is no message (an empty value, or
-- an identifier that cannot be read), and else DEFAULT with a frame of the message's type, sequence
-- number and size, the identifier's low byte, and a pointer to the message's data. The frame of the
-- other results is reset, and just DEFAULT adds the value's length to the download counter.
pub ble_pop_frame_refines :
    (n : BleNetwork) (f : Frame)
    → AllHaveHeads n.recv_array
    → (ble_pop_frame n f ≡ some (queue_answer n.recv_array n f)) × HeadHoldsPayload n.recv_array
ble_pop_frame_refines n f h = pop_queue n.recv_array n f h
