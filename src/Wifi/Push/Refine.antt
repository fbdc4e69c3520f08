-- ===== src/Wifi/Push/Refine.antt =====
-- ARNETWORKAL_WifiNetwork_PushFrame on a valid sender, as a step on the bytes that wait.
use lib_arnetwork_al.Prelude.{
  ℕ, ℤ, length-take_of_le, Bool-cases, le_of_ltb-false, inl, inr, ◌+◌, ◌<◌, ◌≡◌, ap, ◌∙◌, false,
  Option, some, List, [], ◌∷◌, ◌++◌, arith, length, take, ltb, if◌then◌else◌, u32_mod, add_u32,
  sub_word,
}
use lib_arnetwork_al.Platform.{Platform, IsPlatform, Memory, read_bytes}
use lib_arnetwork_al.Frame.{Frame, Return, default, buffer_full, header_size, encode}
use lib_arnetwork_al.Wifi.{
  WifiObject, Manager, Event, dumped, frame_pushed, sending_buffer_size, pending, IsSender,
}
use lib_arnetwork_al.Wifi.Push.{
  OutQueue, get_available_send_size, data_size, copy_frame, is_short, push_frame,
}
use lib_arnetwork_al.Wifi.Push.Copy.{filled, copy_frame-filled, filled_self}

-- A query of the socket changes nothing of the object but the size of the socket's buffer.
get_available_send_size-keeps :
    (reply : OutQueue) (o : WifiObject)
    → let o' = (get_available_send_size reply o).1 in
      o' ≡ record o { socket_buffer_size = o'.socket_buffer_size }
unfolding get_available_send_size
get_available_send_size-keeps reply o = ground arith

-- The queue of bytes that a sender stands for: a frame's bytes are taken whole, or not at all.
unfoldable pub enqueue : (cap : ℕ) → (available : ℤ) → (queue bytes : List ℕ) → Return × List ℕ
enqueue cap available queue bytes =
    let next_size = length queue + length bytes in
    if ltb cap next_size
    then (buffer_full, queue)
    else if is_short available next_size
    then (buffer_full, queue)
    else (default, queue ++ bytes)

-- What a call leaves: its result and the bytes that wait, the sender's validity, and the rest of
-- the manager as it was.
pub record Pushed (p : Platform) (m : Manager) (spec : Return × List ℕ)
    (out : Option (Return × Manager × List Event)) : Type 0 where
  pub result : Return
  pub sender : WifiObject
  pub events : List Event
  pub returns : out ≡ some (result, record m { sender = some sender }, events)
  pub meets : (result, pending sender) ≡ spec
  pub valid_after : IsSender p sender

pub length-encode :
    (p : Platform) (type id seq size : ℕ) (payload : List ℕ)
    → length (encode p type id seq size payload) ≡ header_size + length payload
length-encode p type id seq size payload = omega arith

-- On a valid sender, a frame whose size is that of its head and of its readable data, and whose size
-- together with that of the bytes that wait in the buffer is below 2^32, is taken as a bounded byte
-- queue takes its bytes: appended whole if they fit the buffer and the space that the socket
-- reports, refused with the queue as it was if not. The call does not fault, and the sender stays
-- valid.
pub push_frame_refines :
    {p : Platform} (mem : Memory) (reply : OutQueue) (m : Manager) (o : WifiObject) (f : Frame)
    (payload : List ℕ)
    → IsPlatform p
    → IsSender p o
    → m.sender ≡ some o
    → f.size ≡ header_size + length payload
    → o.size + f.size < u32_mod
    → read_bytes mem f.data_ptr (data_size f) ≡ some payload
    → Pushed p m
        (enqueue
          (sending_buffer_size p)
          (get_available_send_size reply o).0
          (pending o)
          (encode p f.type f.id f.seq f.size payload))
        (push_frame p mem reply m f)
unfolding push_frame enqueue
push_frame_refines {p} mem reply m o f payload ip v at whole small read =
    elim (Bool-cases (ltb cap (o.size + f.size))) [
      | inl over ↦ record {
        result = buffer_full;
        sender = o;
        events = [];
        returns = rw (at, next, over);
        meets = rw (spec_next, over);
        valid_after = v;
      }
      | inr fits ↦ elim (Bool-cases (is_short available (o.size + f.size))) [
        | inl short ↦ record {
          result = buffer_full;
          sender = o1;
          events = [];
          returns = rw (at, next, fits, short);
          meets = rw (spec_next, fits, short, kept);
          valid_after = rw kept (omega (arith, v));
        }
        | inr long ↦
            let (bytes', copied, len, put) = copy fits in
            record {
              result = default;
              sender = filled sized bytes' (o.size + f.size);
              events =
                  if m.dump_file
                  then dumped frame_pushed (sub_word (o.buffer + (o.size + f.size)) f.size) f.size
                    ∷ []
                  else [];
              returns = rw (at, next, fits, long, copied);
              meets = rw (spec_next, fits, long, put);
              valid_after = omega (arith, v, len, le_of_ltb-false cap (o.size + f.size) fits);
            }
      ]
    ]
  where
    cap : ℕ
    cap = sending_buffer_size p

    available : ℤ
    available = (get_available_send_size reply o).0

    o1 : WifiObject
    o1 = (get_available_send_size reply o).1

    sized : WifiObject
    sized = record o { socket_buffer_size = o1.socket_buffer_size }

    kept : o1 ≡ sized
    kept = get_available_send_size-keeps reply o

    waiting : length (pending o) ≡ o.size
    waiting = length-take_of_le o.size o.bytes (omega (arith, v))

    bytes : List ℕ
    bytes = encode p f.type f.id f.seq f.size payload

    next : add_u32 o.size f.size ≡ o.size + f.size
    next = omega arith

    spec_next : length (pending o) + length bytes ≡ o.size + f.size
    spec_next = omega (arith, waiting)

    copy :
        ltb cap (o.size + f.size) ≡ false
        → (bytes' : List ℕ) × (copy_frame p mem f o1 ≡ some (filled sized bytes' (o.size + f.size)))
          × (length bytes' ≡ cap)
          × (take (o.size + f.size) bytes' ≡ pending o ++ bytes)
    copy fits =
        let (bytes', copied, len, put) =
          copy_frame-filled sized cap (omega (arith, ip, v)) (omega (arith, v)) p mem f o.bytes
            payload o.size (omega (arith, v)) read whole
            (le_of_ltb-false cap (o.size + f.size) fits) in
        (bytes', ap (copy_frame p mem f) (kept ∙ filled_self sized v.behind) ∙ copied, len, put)
