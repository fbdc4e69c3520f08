-- ===== src/Wifi/Transfer/Outgoing.antt =====
-- Frames that a caller pushes one after the other, and the datagram that they make.
use lib_arnetwork_al.Prelude.{
  ℕ, ◌+◌, ◌<◌, ◌≡◌, refl, sym, ap, ◌∙◌, Option, none, some, List, [], ◌∷◌, ◌++◌, arith, append-nil,
  append_assoc, u32_mod, ℤ,
}
use lib_arnetwork_al.Platform.{Platform, IsPlatform, Memory, read_bytes}
use lib_arnetwork_al.Frame.{encode, Frame, Return, default, buffer_full}
use lib_arnetwork_al.Frame.Codec.{Message, message_size, IsMessage, encode_message}
use lib_arnetwork_al.Wifi.{WifiObject, Manager, Event, IsSender, pending, sending_buffer_size}
use lib_arnetwork_al.Wifi.Push.{OutQueue, data_size, get_available_send_size, push_frame}
use lib_arnetwork_al.Wifi.Push.Refine.{enqueue, push_frame_refines}
use lib_arnetwork_al.Wifi.Transfer.{datagram, AllMessages}

-- A frame structure that holds a message, with its data behind `dataPtr`.
pub record Carries (mem : Memory) (f : Frame) (g : Message) : Type 0 where
  pub type : f.type ≡ g.type
  pub id : f.id ≡ g.id
  pub seq : f.seq ≡ g.seq
  pub size : f.size ≡ message_size g
  pub payload : read_bytes mem f.data_ptr (data_size f) ≡ some g.payload

abbrev pub AllCarry : Memory → List (OutQueue × Frame) → List Message → Type 0
AllCarry mem [] [] = Unit {0}
AllCarry mem ((q, f) ∷ fs) (g ∷ gs) = Carries mem f g × AllCarry mem fs gs
AllCarry mem [] (g ∷ gs) = ⊥
AllCarry mem (f ∷ fs) [] = ⊥

-- A caller that pushes some frames, each with what the socket reports then; `none` if a call does
-- not return DEFAULT.
unfoldable pub push_all : Platform → Memory → List (OutQueue × Frame) → Manager → Option Manager
push_all p mem [] m = some m
push_all p mem ((q, f) ∷ fs) m = elim (push_frame p mem q m f) [
  | some (default, m', events) ↦ push_all p mem fs m'
  | _ ↦ none
]

-- What is accepted is appended.
enqueue-default :
    (cap : ℕ) (available : ℤ) (queue bytes left : List ℕ) (r : Return)
    → r ≡ default
    → ◌≡◌ {A = Return × List ℕ} (r, left) (enqueue cap available queue bytes)
    → left ≡ queue ++ bytes
unfolding enqueue
enqueue-default cap available queue bytes left r d e = ground arith

-- The size of a message can be added to that of a sender.
push_all-small :
    {p : Platform} {mem : Memory} {o : WifiObject} {f : Frame} {g : Message}
    → IsPlatform p
    → IsSender p o
    → IsMessage g
    → Carries mem f g
    → o.size + f.size < u32_mod
push_all-small ip v vg c = omega (arith, ip, v, vg, c.size)

-- A run goes on only behind a push that returned DEFAULT.
push_all-cons :
    (p : Platform) (mem : Memory) (q : OutQueue) (f : Frame) (fs : List (OutQueue × Frame))
    (m m1 m' : Manager) (events : List Event) (r : Return)
    → push_frame p mem q m f ≡ some (r, m1, events)
    → push_all p mem ((q, f) ∷ fs) m ≡ some m'
    → (r ≡ default) × (push_all p mem fs m1 ≡ some m')
unfolding push_all
push_all-cons p mem q f fs m m1 m' events default e ran = (refl, rw (e, push_all) at ran)
push_all-cons p mem q f fs m m1 m' events buffer_full e ran = absurd (ground arith)
push_all-cons p mem q f fs m m1 m' events r e ran = absurd (ground arith)

encode-Carries :
    (p : Platform) {mem : Memory} {f : Frame} {g : Message}
    → Carries mem f g
    → encode p f.type f.id f.seq f.size g.payload ≡ encode_message p g
encode-Carries p c = rw (c.type, c.id, c.seq, c.size)

-- From a valid sender, a run of pushes that each return DEFAULT leaves a valid sender, with the
-- encodings of the frames, in order, behind the bytes that waited.
pub push_all-datagram :
    {p : Platform} (mem : Memory) (fs : List (OutQueue × Frame)) (gs : List Message)
    (m m' : Manager) (o : WifiObject)
    → IsPlatform p
    → IsSender p o
    → m.sender ≡ some o
    → AllMessages gs
    → AllCarry mem fs gs
    → push_all p mem fs m ≡ some m'
    → (o' : WifiObject) × (m' ≡ record m { sender = some o' })
      × IsSender p o'
      × (pending o' ≡ pending o ++ datagram p gs)
unfolding push_all
push_all-datagram mem [] [] m m' o ip v at vgs cs ran =
    (o, ground (arith, at, ran), v, sym (append-nil (pending o)))
push_all-datagram mem [] (g ∷ gs) m m' o ip v at vgs cs ran = absurd cs
push_all-datagram mem (f ∷ fs) [] m m' o ip v at vgs cs ran = elim cs [ ]
push_all-datagram {p} mem ((q, f) ∷ fs) (g ∷ gs) m m' o ip v at vgs cs ran =
    let c = cs.0 in
    let out =
      push_frame_refines mem q m o f g.payload ip v at c.size (push_all-small ip v vgs.0 c)
        c.payload in
    let (accepted, rest) =
      push_all-cons p mem q f fs m (record m { sender = some out.sender }) m' out.events out.result
        out.returns ran in
    let (o', same, v', bytes) =
      push_all-datagram mem fs gs (record m { sender = some out.sender }) m' out.sender ip
        out.valid_after refl vgs.1 cs.1 rest in
    (
      o',
      same,
      v',
      bytes
          ∙ ap (λ b. b ++ datagram p gs)
              (enqueue-default (sending_buffer_size p) (get_available_send_size q o).0 (pending o)
                  (encode p f.type f.id f.seq f.size g.payload) (pending out.sender) out.result
                  accepted out.meets
                ∙ ap (λ b. pending o ++ b) (encode-Carries p c))
          ∙ append_assoc (pending o) (encode_message p g) (datagram p gs),
    )
