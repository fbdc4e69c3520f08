-- ===== src/Wifi/Pop/Refine.antt =====
-- ARNETWORKAL_WifiNetwork_PopFrame on a valid receiver, whatever was received.
use lib_arnetwork_al.Prelude.{
  ℕ, ◌+◌, ◌<◌, ◌≡◌, refl, ap, Bool, some, List, [], ◌∷◌, arith, length, take, if◌then◌else◌,
  u32_mod, AllBytes, AllBytes-take, AllBytes-drop,
}
use lib_arnetwork_al.Platform.{Platform, IsPlatform, bytes_u32}
use lib_arnetwork_al.Frame.{
  Frame, Return, default, buffer_empty, bad_frame, header_size, reset_frame, Parsed, empty, bad,
  got, parse,
}
use lib_arnetwork_al.Wifi.{
  WifiObject, Manager, Event, dumped, frame_popped, IsReceiver, unread, offset,
}
use lib_arnetwork_al.Wifi.Pop.{rewind, pop_frame}
use lib_arnetwork_al.Wifi.Pop.Header.{length-unread, read_header-unread}

-- The receiver that a call leaves, from what the unread bytes parse to.
abbrev pub receiver_after : WifiObject → Parsed → WifiObject
receiver_after o empty = rewind o
receiver_after o bad = rewind o
receiver_after o (got t i s n rest) = record o { current_frame = o.current_frame + n }

-- The result, the frame and the dump.
abbrev pub result_of : Parsed → Return
result_of empty = buffer_empty
result_of bad = bad_frame
result_of (got t i s n rest) = default

abbrev pub frame_after : WifiObject → Frame → Parsed → Frame
frame_after o f empty = reset_frame f
frame_after o f bad = reset_frame f
frame_after o f (got t i s n rest) = record {
  type = t;
  id = i;
  seq = s;
  size = n;
  data_ptr = o.current_frame + header_size;
}

abbrev pub dump_after : Bool → WifiObject → Parsed → List Event
dump_after dump o empty = []
dump_after dump o bad = []
dump_after dump o (got t i s n rest) =
    if dump then dumped frame_popped o.current_frame n ∷ [] else []

-- All that a call returns and leaves.
abbrev pub expected : Manager → WifiObject → Frame → Parsed → Return × Manager × Frame × List Event
expected m o f r = (
  result_of r,
  record m { receiver = some (receiver_after o r) },
  frame_after o f r,
  dump_after m.dump_file o r,
)

module _ {p : Platform} (m : Manager) (o : WifiObject) (f : Frame) (ip : IsPlatform p)
    (v : IsReceiver p o) (at : m.receiver ≡ some o) where
  pop_frame-nil : length (unread o) ≡ 0 → pop_frame p m f ≡ some (expected m o f empty)
  unfolding pop_frame
  pop_frame-nil e = rw at (ground (arith, v, length-unread o v))

  pop_frame-short :
      0 < length (unread o)
      → length (unread o) < header_size
      → pop_frame p m f ≡ some (expected m o f bad)
  unfolding pop_frame
  pop_frame-short pos lt = rw at (ground (arith, v, length-unread o v))

  pop_frame-header :
      (t i s a b c d : ℕ) (tail : List ℕ)
      → unread o ≡ t ∷ i ∷ s ∷ a ∷ b ∷ c ∷ d ∷ tail
      → p.dtohl (bytes_u32 a b c d) < u32_mod
      → pop_frame p m f ≡ some (expected m o f (parse p (t ∷ i ∷ s ∷ a ∷ b ∷ c ∷ d ∷ tail)))
  unfolding pop_frame parse
  pop_frame-header t i s a b c d tail e lt = rw at (
      ground
        (arith, v, length-unread o v, ap length e, read_header-unread o v f t i s a b c d tail e))

  -- By the number of bytes that wait.
  short :
      {u : List ℕ}
      → unread o ≡ u
      → 0 < length u
      → length u < header_size
      → pop_frame p m f ≡ some (expected m o f bad)
  short e pos lt = pop_frame-short (rw e pos) (rw e lt)

  pop_frame-parse :
      (u : List ℕ) → unread o ≡ u → AllBytes u → pop_frame p m f ≡ some (expected m o f (parse p u))
  unfolding parse
  pop_frame-parse [] e h = pop_frame-nil (ap length e)
  pop_frame-parse (x0 ∷ []) e h = short e (omega arith) (omega arith)
  pop_frame-parse (x0 ∷ x1 ∷ []) e h = short e (omega arith) (omega arith)
  pop_frame-parse (x0 ∷ x1 ∷ x2 ∷ []) e h = short e (omega arith) (omega arith)
  pop_frame-parse (x0 ∷ x1 ∷ x2 ∷ x3 ∷ []) e h = short e (omega arith) (omega arith)
  pop_frame-parse (x0 ∷ x1 ∷ x2 ∷ x3 ∷ x4 ∷ []) e h = short e (omega arith) (omega arith)
  pop_frame-parse (x0 ∷ x1 ∷ x2 ∷ x3 ∷ x4 ∷ x5 ∷ []) e h = short e (omega arith) (omega arith)
  pop_frame-parse (t ∷ i ∷ s ∷ a ∷ b ∷ c ∷ d ∷ tail) e h =
      pop_frame-header t i s a b c d tail e (ip.dtohl-lt (bytes_u32 a b c d) (omega arith))

-- On a valid receiver, whatever bytes the network put in its buffer, a call of PopFrame is what
-- parsing the unread bytes says: BUFFER_EMPTY where there are none; BAD_FRAME where they have no
-- whole head, or a size above their number; both rewind the buffer and reset the frame; and else
-- DEFAULT with the head's fields, the address of the data, and `currentFrame` moved by the size that
-- the head holds. No read leaves the allocation.
pub pop_frame_refines :
    {p : Platform} (m : Manager) (o : WifiObject) (f : Frame)
    → IsPlatform p
    → IsReceiver p o
    → m.receiver ≡ some o
    → pop_frame p m f ≡ some (expected m o f (parse p (unread o)))
pop_frame_refines {p} m o f ip v at =
    pop_frame-parse m o f ip v at (unread o) refl
      (AllBytes-drop (offset o) (take o.size o.bytes) (AllBytes-take o.size o.bytes v.octets))
