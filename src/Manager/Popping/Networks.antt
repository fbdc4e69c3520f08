-- ===== src/Manager/Popping/Networks.antt =====
-- The networks' receivers as an application pops them: the WiFi network's, the mux network's and the BLE
-- network's of Objective-C.
use mathlib.Core.Path.{subst}
use lib_arnetwork_al.Prelude.{
  zero, suc, List, Option, [], arith, length, none, some, ℕ, ℤ, ◌∷◌, ◌≡◌, sym, ◌>>=◌, ◌∙◌, drop-nil,
  ap, refl, ◌<◌, length-drop,
}
use lib_arnetwork_al.Platform.{IsPlatform, Platform}
use lib_arnetwork_al.Frame.{
  empty, bad, got, Frame, Parsed, Return, buffer_empty, parse, network_error, got,
}
use lib_arnetwork_al.Frame.Codec.{parse-got, Message}
use lib_arnetwork_al.Wifi.{IsReceiver, Manager, WifiObject, unread}
use lib_arnetwork_al.Wifi.Pop.{pop_frame, rewind}
use lib_arnetwork_al.Wifi.Pop.Refine.{expected, pop_frame_refines, receiver_after}
use lib_arnetwork_al.Wifi.Pop.Safety.{moved, receiver_after-IsReceiver, unread-advance}
use lib_arnetwork_al.Wifi.Pop.Loop.{HeadsHaveSize, HeadHasSize}
use lib_arnetwork_al.Mux.{MuxObject, RxBuffer, mux_pop_frame}
use lib_arnetwork_al.Mux.Buffers.{mux_pop_frame-empty, mux_pop_frame-popped}
use lib_arnetwork_al.Ble.{BleNetwork, NotificationData}
use lib_arnetwork_al.Ble.Frames.{ble_pop_frame}
use lib_arnetwork_al.Ble.Queue.{
  AllHaveHeads, ble_pop_frame_refines, head_answer, message, queue_answer,
}
use lib_arnetwork_al.Manager.Popping.{PopsAll, Pops, Popping, pop_until-PopsAll, suc}

-- The BLE network: the notifications in its array.
abbrev pub ble_waiting : BleNetwork → ℕ
ble_waiting n = length n.recv_array

abbrev pub IsQueue : BleNetwork → Type 0
IsQueue n = AllHaveHeads n.recv_array

ble_answer-Pops :
    (queue : List NotificationData) (n : BleNetwork) (f : Frame)
    → AllHaveHeads queue
    → ble_pop_frame (record n { recv_array = queue }) f
      ≡ some (queue_answer queue (record n { recv_array = queue }) f)
    → Pops ble_pop_frame IsQueue ble_waiting (record n { recv_array = queue }) f
ble_answer-Pops [] n f h e = (_, _, _, e, h, omega arith)
ble_answer-Pops (d ∷ rest) n f (h, hs) e = head-Pops (message d) e
  where
    head-Pops :
        (m : Option Message)
        → ble_pop_frame (record n { recv_array = d ∷ rest }) f
          ≡ some (head_answer d rest m (record n { recv_array = d ∷ rest }) f)
        → Pops ble_pop_frame IsQueue ble_waiting (record n { recv_array = d ∷ rest }) f
    head-Pops none e = (_, _, _, e, hs, omega arith)
    head-Pops (some m) e = (_, _, _, e, hs, omega arith)

pub ble-Pops : (n : BleNetwork) (f : Frame) → IsQueue n → Pops ble_pop_frame IsQueue ble_waiting n f
ble-Pops n f h = ble_answer-Pops n.recv_array n f h (ble_pop_frame_refines n f h).0

abbrev pub ble_popping : Popping
ble_popping = record {
  State = BleNetwork;
  pop = ble_pop_frame;
  IsOpen = IsQueue;
  waiting = ble_waiting;
  pops = ble-Pops;
}

-- The mux network: the one buffer that was received.
abbrev pub mux_waiting : MuxObject → ℕ
mux_waiting o = elim o.rxbuf_recv [ none ↦ 0 | some b ↦ 1 ]

mux-Pops_of :
    (p : Platform) (cdata : ℤ) (o : MuxObject) (f : Frame) (recv pop : Option RxBuffer)
    → o.rxbuf_recv ≡ recv
    → o.rxbuf_pop ≡ pop
    → Pops (mux_pop_frame p cdata) (λ o. Unit {0}) mux_waiting o f
unfolding mux_pop_frame
mux-Pops_of p cdata o f none pop er ep =
    (buffer_empty, o, f, mux_pop_frame-empty p cdata o f er, tt, omega arith)
mux-Pops_of p cdata o f (some b) none er ep =
    let (code, f', ran) = mux_pop_frame-popped p cdata o f b er ep in
    let one : mux_waiting o ≡ 1 = ap (λ r. elim r [ none ↦ 0 | some b ↦ 1 ]) er in
    (code, record o { rxbuf_recv = none; rxbuf_pop = some b }, f', ran, tt, ground (arith, one))
mux-Pops_of p cdata o f (some b) (some c) er ep =
    let same : o ≡ record o { rxbuf_recv = some b; rxbuf_pop = some c } =
      ap (λ r. record o { rxbuf_recv = r }) er
      ∙ ap (λ r. record o { rxbuf_recv = some b; rxbuf_pop = r }) ep in
    (
      network_error,
      o,
      f,
      subst (λ x. mux_pop_frame p cdata x f ≡ some (network_error, x, f)) (sym same) refl,
      tt,
      omega arith,
    )

pub mux-Pops :
    (p : Platform) (cdata : ℤ) (o : MuxObject) (f : Frame)
    → Unit {0}
    → Pops (mux_pop_frame p cdata) (λ o. Unit {0}) mux_waiting o f
mux-Pops p cdata o f h = mux-Pops_of p cdata o f o.rxbuf_recv o.rxbuf_pop refl refl

abbrev pub mux_popping : Platform → (cdata : ℤ) → Popping
mux_popping p cdata = record {
  State = MuxObject;
  pop = mux_pop_frame p cdata;
  IsOpen = λ o. Unit {0};
  waiting = mux_waiting;
  pops = mux-Pops p cdata;
}

-- The WiFi network: the bytes of the last datagram that are unread, of which no head holds a size of 0.
abbrev pub wifi_pop : Platform → Manager → Frame → Option (Return × Manager × Frame)
wifi_pop p m f = pop_frame p m f >>= λ (r, m', f', events). some (r, m', f')

abbrev pub wifi_waiting : Manager → ℕ
wifi_waiting m = elim m.receiver [ none ↦ 0 | some o ↦ length (unread o) ]

abbrev pub IsWifiOpen : Platform → Manager → Type 0
IsWifiOpen p m =
    (o : WifiObject) × (m.receiver ≡ some o)
    × IsReceiver p o
    × ((fuel : ℕ) → HeadsHaveSize p fuel (unread o))

nothing-HeadsHaveSize : (p : Platform) (fuel : ℕ) → HeadsHaveSize p fuel []
unfolding parse
nothing-HeadsHaveSize p zero = tt
nothing-HeadsHaveSize p (suc fuel) = tt

module _ {p : Platform} (m : Manager) (o : WifiObject) (f : Frame) (ip : IsPlatform p)
    (v : IsReceiver p o) (at : m.receiver ≡ some o)
    (sized : (fuel : ℕ) → HeadsHaveSize p fuel (unread o)) where
  waits : wifi_waiting m ≡ length (unread o)
  waits = ap (λ r. elim r [ none ↦ 0 | some o ↦ length (unread o) ]) at

  pops_as : (r : Parsed) → parse p (unread o) ≡ r → pop_frame p m f ≡ some (expected m o f r)
  pops_as r e = pop_frame_refines m o f ip v at ∙ ap (λ r. some (expected m o f r)) e

  wifi_pops_as :
      (r : Parsed)
      → parse p (unread o) ≡ r
      → wifi_pop p m f ≡ some ((expected m o f r).0, (expected m o f r).1, (expected m o f r).2)
  wifi_pops_as r e = ap (λ x. x >>= λ (r, m', f', events). some (r, m', f')) (pops_as r e)

  rewound-IsWifiOpen : IsWifiOpen p (record m { receiver = some (rewind o) })
  rewound-IsWifiOpen = (
    rewind o,
    refl,
    moved v o.buffer 0 (omega arith) (omega arith) (omega arith),
    λ fuel. subst (HeadsHaveSize p fuel) (sym (drop-nil _)) (nothing-HeadsHaveSize p fuel),
  )

  rewound_empty : length (unread (rewind o)) ≡ 0
  rewound_empty = ap length (drop-nil _)

  parsed-Pops :
      (r : Parsed) → parse p (unread o) ≡ r → Pops (wifi_pop p) (IsWifiOpen p) wifi_waiting m f
  parsed-Pops empty e =
      (_, _, _, wifi_pops_as empty e, rewound-IsWifiOpen, omega (arith, rewound_empty))
  parsed-Pops bad e =
      (_, _, _, wifi_pops_as bad e, rewound-IsWifiOpen, omega (arith, rewound_empty))
  parsed-Pops (got t i s n rest) e =
      let (bound, tail) = parse-got p (unread o) e in
      let after = receiver_after o (got t i s n rest) in
      let left : unread after ≡ rest = unread-advance v n ∙ sym tail in
      let positive : 0 < n = (subst (HeadHasSize (HeadsHaveSize p 0)) e (sized 1)).0 in
      (
        _,
        _,
        _,
        wifi_pops_as (got t i s n rest) e,
        (
          after,
          refl,
          receiver_after-IsReceiver v (got t i s n rest) e,
          λ fuel.
              subst (HeadsHaveSize p fuel) (sym left)
                (subst (HeadHasSize (HeadsHaveSize p fuel)) e (sized (suc fuel))).1,
        ),
        omega (
          arith,
          waits,
          positive,
          bound,
          ap length left,
          ap length tail,
          length-drop n (unread o),
        ),
      )

pub wifi-Pops :
    (p : Platform) (ip : IsPlatform p) (m : Manager) (f : Frame)
    → IsWifiOpen p m
    → Pops (wifi_pop p) (IsWifiOpen p) wifi_waiting m f
wifi-Pops p ip m f (o, at, v, sized) = parsed-Pops m o f ip v at sized (parse p (unread o)) refl

abbrev pub wifi_popping : (p : Platform) → IsPlatform p → Popping
wifi_popping p ip = record {
  State = Manager;
  pop = wifi_pop p;
  IsOpen = IsWifiOpen p;
  waiting = wifi_waiting;
  pops = wifi-Pops p ip;
}

-- A caller that pops until the result is not DEFAULT comes to an end on three networks, behind at most
-- as many frames as wait: on the WiFi network the unread bytes of a valid receiver, of which no head
-- holds a size of 0; on the mux network the one received buffer; and on the BLE network of Objective-C
-- the notifications in its array, of which no value ends behind its first byte. One call more than that
-- is enough, and what is asked of the receivers holds behind it.
pub networks-PopsAll :
    (p : Platform) (ip : IsPlatform p) (cdata : ℤ) (m : Manager) (o : MuxObject) (n : BleNetwork)
    (f : Frame)
    → IsWifiOpen p m
    → IsQueue n
    → PopsAll (wifi_popping p ip) (suc (wifi_waiting m)) m f
      × PopsAll (mux_popping p cdata) (suc (mux_waiting o)) o f
      × PopsAll ble_popping (suc (ble_waiting n)) n f
networks-PopsAll p ip cdata m o n f wifi ble = (
  pop_until-PopsAll (wifi_popping p ip) (suc (wifi_waiting m)) m f wifi (omega arith),
  pop_until-PopsAll (mux_popping p cdata) (suc (mux_waiting o)) o f tt (omega arith),
  pop_until-PopsAll ble_popping (suc (ble_waiting n)) n f ble (omega arith),
)
