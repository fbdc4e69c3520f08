-- ===== src/Wifi/Pop/Safety.antt =====
-- ARNETWORKAL_WifiNetwork_PopFrame on a valid receiver, and where the frames that it accepts lie.
use lib_arnetwork_al.Prelude.{
  ℕ, ◌+◌, ◌-◌, ◌≤◌, ◌≡◌, refl, ap, sym, ◌∙◌, some, List, arith, take, drop, drop-drop,
}
use lib_arnetwork_al.Platform.{Platform, IsPlatform}
use lib_arnetwork_al.Frame.{Frame, Return, Parsed, empty, bad, got, parse}
use lib_arnetwork_al.Frame.Codec.{parse-got}
use lib_arnetwork_al.Wifi.{
  WifiObject, Manager, Event, IsReceiver, unread, offset, receiving_buffer_size,
}
use lib_arnetwork_al.Wifi.Pop.{pop_frame}
use lib_arnetwork_al.Wifi.Pop.Header.{length-unread}
use lib_arnetwork_al.Wifi.Pop.Refine.{receiver_after, expected, pop_frame_refines}

module _ {p : Platform} {o : WifiObject} (v : IsReceiver p o) where
  -- The pointer and the size may change inside the allocation.
  pub moved :
      (current size : ℕ)
      → size ≤ receiving_buffer_size p
      → o.buffer ≤ current
      → current ≤ o.buffer + size
      → IsReceiver p (record o { current_frame = current; size = size })
  moved current size fits low high = record {
    allocated = v.allocated;
    above = v.above;
    placed = v.placed;
    filled = fits;
    from = low;
    to = high;
    octets = v.octets;
  }

  pub receiver_after-IsReceiver :
      (r : Parsed) → parse p (unread o) ≡ r → IsReceiver p (receiver_after o r)
  receiver_after-IsReceiver empty e = moved o.buffer 0 (omega arith) (omega arith) (omega arith)
  receiver_after-IsReceiver bad e = moved o.buffer 0 (omega arith) (omega arith) (omega arith)
  receiver_after-IsReceiver (got t i s n rest) e =
      let (bound, _) = parse-got p (unread o) e in
      moved (o.current_frame + n) o.size v.filled (omega (arith, v))
        (omega (arith, v, bound, length-unread o v))

  -- The bytes behind a frame of `n` bytes.
  pub unread-advance :
      (n : ℕ) → unread (record o { current_frame = o.current_frame + n }) ≡ drop n (unread o)
  unread-advance n =
      ap (λ k. drop k (take o.size o.bytes)) {x = o.current_frame + n - o.buffer} {y = offset o + n}
        (omega (arith, v))
      ∙ sym (drop-drop n (offset o) (take o.size o.bytes))

-- On a valid receiver, whatever was received, a call of PopFrame returns, and leaves the manager as
-- it was but for the receiver, which is valid again.
pub pop_frame-IsReceiver :
    {p : Platform} (m : Manager) (o : WifiObject) (f : Frame)
    → IsPlatform p
    → IsReceiver p o
    → m.receiver ≡ some o
    → (r : Return) × (o' : WifiObject) × (f' : Frame) × (events : List Event) × (pop_frame p m f
        ≡ some (r, record m { receiver = some o' }, f', events))
      × IsReceiver p o'
pop_frame-IsReceiver {p} m o f ip v at =
    let r = parse p (unread o) in
    let out = expected m o f r in
    (
      out.0,
      receiver_after o r,
      out.2,
      out.3,
      pop_frame_refines m o f ip v at,
      receiver_after-IsReceiver v r refl,
    )
