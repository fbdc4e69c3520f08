-- ===== src/Ble/Bandwidth.antt =====
-- getUpload:andDownloadBandwidth: and bw_thread of Sources/BLE/ARNETWORKAL_BLENetwork.m.
pub mod Same
use lib_arnetwork_al.Prelude.{
  Bool, List, Option, [], add_u32, if◌then◌else◌, length, ltb, none, not, set, some, suc, zero, ℕ,
  ◌%◌, ◌&&◌, ◌*◌, ◌+◌, ◌/◌, ◌>>=◌, ◌∷◌,
}
use lib_arnetwork_al.Platform.{etimedout}
use lib_arnetwork_al.Errors.{Error, bad_parameter, ok}
use lib_arnetwork_al.Wifi.Bandwidth.{
  Period, bw_nb_elems, bw_progress_each_sec, sum_elements, wait_failed,
}
use lib_arnetwork_al.Ble.{BleNetwork}

-- What pushFrame and popFrame add to the two counters.
abbrev pub count_up : List ℕ → BleNetwork → BleNetwork
count_up [] n = n
count_up (k ∷ ks) n = count_up ks (record n { bw_current_up = add_u32 n.bw_current_up k })

abbrev pub count_down : List ℕ → BleNetwork → BleNetwork
count_down [] n = n
count_down (k ∷ ks) n = count_down ks (record n { bw_current_down = add_u32 n.bw_current_down k })

-- A round of the loop: one index for both rings.
abbrev pub next_index : BleNetwork → ℕ
next_index n = (n.bw_index + 1) % bw_nb_elems

abbrev pub rounded : BleNetwork → BleNetwork
rounded n = record n {
  bw_index = next_index n;
  bw_elements_up = set n.bw_elements_up (next_index n) n.bw_current_up;
  bw_elements_down = set n.bw_elements_down (next_index n) n.bw_current_down;
  bw_current_up = 0;
  bw_current_down = 0;
}

unfoldable pub ble_progress : BleNetwork → Option BleNetwork
ble_progress n =
    if ltb (next_index n) (length n.bw_elements_up)
      && ltb (next_index n) (length n.bw_elements_down)
    then some (rounded n)
    else none

-- The loop, as far as the waits go, with what is sent and received meanwhile.
unfoldable pub ble_bandwidth_loop : List Period → BleNetwork → Option BleNetwork
ble_bandwidth_loop [] n = some n
ble_bandwidth_loop (w ∷ ws) n =
    let n = count_down w.received_sizes (count_up w.sent_sizes n) in
    elim w.end [
      | wait_failed etimedout ↦ (ble_progress n >>= λ n. ble_bandwidth_loop ws n)
      | _ ↦ some n
    ]

-- bw_thread: where `ARSAL_Sem_Trywait` gets the semaphore, the loop, and then its post.
unfoldable pub ble_bandwidth_thread : List Period → BleNetwork → Option BleNetwork
ble_bandwidth_thread ws n = elim n.bw_thread_running [
  | zero ↦ some n
  | suc k ↦ do
    n ← ble_bandwidth_loop ws (record n { bw_thread_running = k })
    some (record n { bw_thread_running = n.bw_thread_running + 1 })
]

abbrev pub ble_average : List ℕ → ℕ
ble_average elements = sum_elements 0 elements / (bw_nb_elems * bw_progress_each_sec)

-- getUpload:andDownloadBandwidth:. The arguments are whether the two pointers are not NULL, and the
-- results what is written through them.
abbrev pub ble_bandwidth : BleNetwork → (up down : Bool) → Option ℕ × Option ℕ
ble_bandwidth n up down = (
  if up then some (ble_average n.bw_elements_up) else none,
  if down then some (ble_average n.bw_elements_down) else none,
)

-- ARNETWORKAL_BLENetwork_GetBandwidth. A message to nil writes nothing and gives OK.
unfoldable pub ble_get_bandwidth :
    Option (Option BleNetwork) → (up down : Bool) → Error × Option ℕ × Option ℕ
ble_get_bandwidth none up down = (bad_parameter, none, none)
ble_get_bandwidth (some none) up down = (ok, none, none)
ble_get_bandwidth (some (some n)) up down =
    let written = ble_bandwidth n up down in (ok, written.0, written.1)
