-- ===== src/Wifi/Transfer.antt =====
-- Frames from one manager to another: what is pushed and sent is received and popped, in order. The
-- network between them hands a datagram over unchanged.
pub mod Outgoing
pub mod Whole
use lib_arnetwork_al.Prelude.{
  ℕ, zero, suc, ◌+◌, ◌-◌, ◌≤◌, ◌<◌, ◌≡◌, refl, sym, ap, ◌∙◌, Option, none, some, List, [], ◌∷◌,
  ◌++◌, arith, length, take, drop, drop-drop, take-drop-take, take-append, drop-append, append-nil,
  append_assoc, ◌>>=◌, sub_word, u32_mod, length-append,
}
use lib_arnetwork_al.Platform.{Platform, IsPlatform, read_bytes, read_bytes-block}
use lib_arnetwork_al.Frame.{
  Frame, Return, default, buffer_empty, header_size, Parsed, empty, got, parse,
}
use lib_arnetwork_al.Frame.Codec.{
  Message, message_size, IsMessage, encode_message, length-encode_message, parse-encode,
}
use lib_arnetwork_al.Wifi.{
  WifiObject, Manager, Event, IsReceiver, unread, offset, memory, receiving_buffer_size,
}
use lib_arnetwork_al.Wifi.Pop.{pop_frame, rewind}
use lib_arnetwork_al.Wifi.Pop.Header.{length-unread}
use lib_arnetwork_al.Wifi.Pop.Refine.{pop_frame_refines, expected}
use lib_arnetwork_al.Wifi.Pop.Safety.{moved, unread-advance}

-- The datagram that carries some frames.
abbrev pub datagram : Platform → List Message → List ℕ
datagram p [] = []
datagram p (g ∷ gs) = encode_message p g ++ datagram p gs

abbrev pub AllMessages : List Message → Type 0
AllMessages [] = Unit {0}
AllMessages (g ∷ gs) = IsMessage g × AllMessages gs

-- The frame that a caller sees, with the data that it reads through `dataPtr`.
abbrev pub read_message : WifiObject → Frame → Option Message
read_message o f = read_bytes (memory o) f.data_ptr (sub_word f.size header_size) >>= λ payload.
    some (record { type = f.type; id = f.id; seq = f.seq; payload = payload })

-- A caller that pops frames until a call returns something else, and reads each at once.
unfoldable pub drain : Platform → ℕ → Manager → Frame → Option (List Message × Return × Manager)
drain p zero m f = none
drain p (suc fuel) m f = elim (pop_frame p m f) [
  | some (default, m', f', events) ↦ do
    o ← m'.receiver
    g ← read_message o f'
    (gs, r, m'') ← drain p fuel m' f'
    some (g ∷ gs, r, m'')
  | some (r, m', f', events) ↦ some ([], r, m')
  | none ↦ none
]

module _ {p : Platform} (ip : IsPlatform p) {o : WifiObject} (v : IsReceiver p o) where
  -- The unread bytes from some place on, read through a pointer.
  read_bytes-unread :
      (k n : ℕ)
      → k + n ≤ length (unread o)
      → read_bytes (memory o) (o.current_frame + k) n ≡ some (take n (drop k (unread o)))
  read_bytes-unread k n h =
      read_bytes-block o.buffer o.bytes (o.current_frame + k) (offset o + k) n (omega (arith, v))
        (omega (arith, v, length-unread o v))
      ∙ ap some (
          sym (take-drop-take n (offset o + k) o.size o.bytes (omega (arith, v, length-unread o v)))
          ∙ ap (take n) (sym (drop-drop k (offset o) (take o.size o.bytes))))

  -- A frame at the front of the unread bytes is popped whole.
  pop_frame-message :
      (m : Manager) (f : Frame) (g : Message) (rest : List ℕ)
      → IsMessage g
      → m.receiver ≡ some o
      → unread o ≡ encode_message p g ++ rest
      → let o' = record o { current_frame = o.current_frame + message_size g } in
        let out = expected m o f (got g.type g.id g.seq (message_size g) rest) in
        (pop_frame p m f ≡ some out)
        × IsReceiver p o'
        × (unread o' ≡ rest)
        × (read_message o' out.2 ≡ some g)
  pop_frame-message m f g rest vg at e = (
    pop_frame_refines m o f ip v at
        ∙ ap (λ r. some (expected m o f r)) (ap (parse p) e ∙ parse-encode g rest ip vg),
    moved v (o.current_frame + message_size g) o.size v.filled (omega (arith, v))
        (omega (arith, v, whole, length-unread o v)),
    unread-advance v (message_size g)
        ∙ ap (drop (message_size g)) e
        ∙ drop-append (message_size g) (encode_message p g) rest (omega arith),
    rw (
      (let size : sub_word (message_size g) header_size ≡ length g.payload = omega (arith, vg) in
          size),
      payload_read,
    ),
  )
    where
      whole : length (unread o) ≡ message_size g + length rest
      whole = ap length e ∙ omega (arith, length-append g.payload rest)

      payload_read :
          read_bytes (memory o) (o.current_frame + header_size) (length g.payload) ≡ some g.payload
      payload_read =
          read_bytes-unread header_size (length g.payload) (omega (arith, whole))
          ∙ ap (λ u. some (take (length g.payload) (drop header_size u))) e
          ∙ ap some (take-append (length g.payload) g.payload rest refl)

-- From a valid receiver whose unread bytes are those of some frames, calls of PopFrame give these
-- frames in order, each with its data, and then BUFFER_EMPTY with the buffer rewound.
pub drain-datagram :
    {p : Platform} (gs : List Message) (fuel : ℕ) (m : Manager) (f : Frame) (o : WifiObject)
    → IsPlatform p
    → IsReceiver p o
    → m.receiver ≡ some o
    → AllMessages gs
    → unread o ≡ datagram p gs
    → length gs < fuel
    → drain p fuel m f ≡ some (gs, buffer_empty, record m { receiver = some (rewind o) })
unfolding drain parse
drain-datagram gs zero m f o ip v at vgs e h = absurd (omega arith)
drain-datagram {p} [] (suc fuel) m f o ip v at vgs e h =
    rw (pop_frame_refines m o f ip v at ∙ ap (λ u. some (expected m o f (parse p u))) e, drain)
drain-datagram {p} (g ∷ gs) (suc fuel) m f o ip v at vgs e h =
    let (popped, v', left, seen) = pop_frame-message ip v m f g (datagram p gs) vgs.0 at e in
    let o' = record o { current_frame = o.current_frame + message_size g } in
    let out = expected m o f (got g.type g.id g.seq (message_size g) (datagram p gs)) in
    rw (
      popped,
      drain,
      seen,
      drain-datagram gs fuel out.1 out.2 o' ip v' refl vgs.1 left (omega arith),
    )
