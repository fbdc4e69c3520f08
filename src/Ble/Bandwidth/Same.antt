-- ===== src/Ble/Bandwidth/Same.antt =====
-- The bandwidth measure of Sources/BLE/ARNETWORKAL_BLENetwork.m beside that of
-- Sources/Wifi/ARNETWORKAL_WifiNetwork.c.
use lib_arnetwork_al.Prelude.{
  Bool, List, Option, [], add_u32, false, if◌then◌else◌, none, refl, some, true, ℕ, ◌&&◌, ◌>>=◌,
  ◌∷◌, ◌≡◌, ◌∙◌, ap,
}
use lib_arnetwork_al.Wifi.{WifiObject, Manager}
use lib_arnetwork_al.Platform.{eacces, eagain, enxio, etimedout, other}
use lib_arnetwork_al.Wifi.Bandwidth.{
  woken, Period, Wait, bandwidth_loop, count, get_bandwidth, progress,
}
use lib_arnetwork_al.Ble.{BleNetwork}
use lib_arnetwork_al.Ble.Bandwidth.{
  ble_bandwidth_loop, ble_get_bandwidth, ble_progress, count_down, count_up, wait_failed, ltb,
  next_index, length, rounded,
}

-- The two rings as those of a WiFi sender and receiver.
abbrev pub as_sender : WifiObject → BleNetwork → WifiObject
as_sender w n = record w {
  bw_index = n.bw_index;
  bw_elements = n.bw_elements_up;
  bw_current = n.bw_current_up;
}

abbrev pub as_receiver : WifiObject → BleNetwork → WifiObject
as_receiver w n = record w {
  bw_index = n.bw_index;
  bw_elements = n.bw_elements_down;
  bw_current = n.bw_current_down;
}

abbrev pub as_manager : Manager → WifiObject → BleNetwork → Manager
as_manager m w n = record m { sender = some (as_sender w n); receiver = some (as_receiver w n) }

count_up-count :
    (ks : List ℕ) (w : WifiObject) (n : BleNetwork)
    → (count ks (as_sender w n) ≡ as_sender w (count_up ks n))
      × (as_receiver w n ≡ as_receiver w (count_up ks n))
count_up-count [] w n = (refl, refl)
count_up-count (k ∷ ks) w n =
    count_up-count ks w (record n { bw_current_up = add_u32 n.bw_current_up k })

count_down-count :
    (ks : List ℕ) (w : WifiObject) (n : BleNetwork)
    → (count ks (as_receiver w n) ≡ as_receiver w (count_down ks n))
      × (as_sender w n ≡ as_sender w (count_down ks n))
count_down-count [] w n = (refl, refl)
count_down-count (k ∷ ks) w n =
    count_down-count ks w (record n { bw_current_down = add_u32 n.bw_current_down k })

module _ (w : WifiObject) where
  abbrev pub views : BleNetwork → Option (WifiObject × WifiObject)
  views n = some (as_sender w n, as_receiver w n)

  -- A round and what follows it, with the tests of the two rings.
  round-same :
      (ws : List Period) (up down : Bool) (n : BleNetwork)
      → (ble_bandwidth_loop ws n >>= views) ≡ bandwidth_loop ws (as_sender w n) (as_receiver w n)
      → (((if up && down then some n else none) >>= λ n. ble_bandwidth_loop ws n) >>= views) ≡ (
          (if up then some (as_sender w n) else none) >>= λ s.
          (if down then some (as_receiver w n) else none) >>= λ r. bandwidth_loop ws s r)
  round-same ws true true n h = h
  round-same ws true false n h = refl
  round-same ws false down n h = refl

  -- The end of a wait.
  turn-same :
      (end : Wait) (ws : List Period) (n : BleNetwork) (s r : WifiObject)
      → s ≡ as_sender w n
      → r ≡ as_receiver w n
      → ((n' : BleNetwork)
          → (ble_bandwidth_loop ws n' >>= views)
            ≡ bandwidth_loop ws (as_sender w n') (as_receiver w n'))
      → ((elim end [
        | wait_failed etimedout ↦ (ble_progress n >>= λ n. ble_bandwidth_loop ws n)
        | _ ↦ some n
      ])
          >>= views)
        ≡ elim end [
          | wait_failed etimedout ↦ (progress s >>= λ s. progress r >>= λ r. bandwidth_loop ws s r)
          | _ ↦ some (s, r)
        ]
  unfolding ble_progress progress
  turn-same woken ws n s r es er same = rw (es, er) refl
  turn-same (wait_failed etimedout) ws n s r es er same =
      rw (es, er)
        (round-same ws (ltb (next_index n) (length n.bw_elements_up))
          (ltb (next_index n) (length n.bw_elements_down)) (rounded n) (same (rounded n)))
  turn-same (wait_failed eagain) ws n s r es er same = rw (es, er) refl
  turn-same (wait_failed eacces) ws n s r es er same = rw (es, er) refl
  turn-same (wait_failed enxio) ws n s r es er same = rw (es, er) refl
  turn-same (wait_failed other) ws n s r es er same = rw (es, er) refl

  loop-same :
      (ws : List Period) (n : BleNetwork)
      → (ble_bandwidth_loop ws n >>= views) ≡ bandwidth_loop ws (as_sender w n) (as_receiver w n)
  unfolding ble_bandwidth_loop bandwidth_loop
  loop-same [] n = refl
  loop-same (p ∷ ws) n =
      let (up, up_other) = count_up-count p.sent_sizes w n in
      let (down, down_other) = count_down-count p.received_sizes w (count_up p.sent_sizes n) in
      turn-same p.end ws (count_down p.received_sizes (count_up p.sent_sizes n)) _ _
        (up ∙ down_other) (ap (count p.received_sizes) up_other ∙ down) (loop-same ws)

-- The loop of the BLE network's bandwidth thread, for the same waits and sizes, does to its two rings
-- what that of the WiFi network does to the rings of a sender and a receiver that hold the same, and
-- writes out of bounds where that does; and GetBandwidth of both networks returns and writes the same
-- for such rings.
pub bandwidth-same :
    (ws : List Period) (w : WifiObject) (m : Manager) (n : BleNetwork) (up down : Bool)
    → ((ble_bandwidth_loop ws n >>= views w) ≡ bandwidth_loop ws (as_sender w n) (as_receiver w n))
      × (ble_get_bandwidth (some (some n)) up down
          ≡ get_bandwidth (some (as_manager m w n)) up down)
unfolding ble_get_bandwidth get_bandwidth
bandwidth-same ws w m n up down = (loop-same w ws n, refl)
