-- ===== src/Tests/BleRuns.antt =====
-- The BLE network of Objective-C: frames, lives, and the bandwidth measure.
use mathlib.Core.Option
use lib_arnetwork_al.Prelude.{
  List, Option, [], add_u32, arith, false, none, refl, some, true, ℕ, ◌>>=◌, ◌∷◌, ◌≡◌,
}
use lib_arnetwork_al.Platform.{block, etimedout, read_bytes}
use lib_arnetwork_al.Errors.{ble_services_discovering, ok}
use lib_arnetwork_al.Frame.{Return, buffer_empty, default, reset_frame}
use lib_arnetwork_al.Wifi.Bandwidth.{Period, bandwidth_loop, get_bandwidth, wait_failed, woken}
use lib_arnetwork_al.Ble.{
  BleNetwork, Characteristic, NotificationData, Service, connected_to, released,
  discovered_characteristics, discovered_services, reset_manager, sal_ok, wrote,
}
use lib_arnetwork_al.Ble.Frames.{ble_pop_frame, ble_push_frame, ble_receive, notified_frame}
use lib_arnetwork_al.Ble.Bandwidth.{ble_bandwidth_loop, ble_get_bandwidth}
use lib_arnetwork_al.Ble.Bandwidth.Same.{as_manager, as_receiver, as_sender, bandwidth-same, views}
use lib_arnetwork_al.Ble.Connect.{Peripheral, ble_connect, established_network, zeros}
use lib_arnetwork_al.Ble.Calls.{ble_disconnect, ble_network_delete, init_network}
use lib_arnetwork_al.Ble.Queue.{HeadHoldsPayload, ble_pop_frame_refines, queue_answer}
use lib_arnetwork_al.Ble.Transfer.{ble_push_frame-bounds, ble_transfer, written_outcome}
use lib_arnetwork_al.Ble.Life.{
  NetworkCall, network_callback, network_life, network_lost, network_pop, network_push,
  network_receive, network_run,
}
use lib_arnetwork_al.Tests.WifiLives.{empty_manager}
use lib_arnetwork_al.Manager.BleOpening.{
  EndsOpening, connect_made, made, open_ble_network, open_ble_network-EndsOpening,
}
use lib_arnetwork_al.Tests.Data.{caller, first_frame, fresh, manager, no_frame}

-- Ten characteristics to write to, and one to be notified of.
abbrev writable : ℕ → Characteristic
writable r = record {
  reference = r;
  writes_without_response = true;
  notifies = false;
  is_ftp = false;
  notification = sal_ok;
  ftp_notification = sal_ok;
}

abbrev notifying : Characteristic
notifying = record (writable 70) { writes_without_response = false; notifies = true }

abbrev sending_service : Service
sending_service = record {
  reference = 1;
  is_parrot = true;
  discovery = sal_ok;
  characteristics =
      writable 50
      ∷ writable 51
      ∷ writable 52
      ∷ writable 53
      ∷ writable 54
      ∷ writable 55
      ∷ writable 56
      ∷ writable 57
      ∷ writable 58
      ∷ writable 59
      ∷ writable 60
      ∷ [];
}

abbrev receiving_service : Service
receiving_service = record {
  reference = 2;
  is_parrot = true;
  discovery = sal_ok;
  characteristics = notifying ∷ [];
}

abbrev drone : Peripheral
drone = record {
  reference = 9;
  connection = sal_ok;
  discovery = sal_ok;
  services = sending_service ∷ receiving_service ∷ [];
}

abbrev ring : List ℕ
ring = zeros 10

abbrev fresh_network : BleNetwork
fresh_network = record (init_network ring ring) { retains = 2 }

abbrev served_network : BleNetwork
served_network =
    established_network (some 3) 9 sending_service receiving_service (70 ∷ []) ring ring
      fresh_network

-- A message, an empty value, and one whose identifier cannot be read.
abbrev notification : Option ℕ → List ℕ → NotificationData
notification id value = record { scanned_id = id; address = 9000; value = value }

abbrev waiting_network : BleNetwork
waiting_network = record served_network {
  recv_array =
      notification (some 10) (2 ∷ 1 ∷ 7 ∷ 8 ∷ [])
      ∷ notification (some 10) []
      ∷ notification none (2 ∷ 2 ∷ [])
      ∷ [];
}

ble_pop_frame_refines_example :
    (ble_pop_frame waiting_network no_frame
      ≡ some (queue_answer waiting_network.recv_array waiting_network no_frame))
    × HeadHoldsPayload waiting_network.recv_array
ble_pop_frame_refines_example = ble_pop_frame_refines waiting_network no_frame (tt, (tt, (tt, tt)))

-- What that is.
first_popped :
    Option.map (λ x. x.2) (ble_pop_frame waiting_network no_frame)
    ≡ some (record first_frame { data_ptr = 9002 })
unfolding ble_pop_frame notified_frame
first_popped = refl

ble_push_frame-bounds_example :
    ble_push_frame caller false served_network first_frame
    ≡ some (written_outcome false 60 served_network first_frame (7 ∷ 8 ∷ []))
unfolding read_bytes
ble_push_frame-bounds_example =
    ble_push_frame-bounds caller false served_network sending_service (writable 60) first_frame
      (7 ∷ 8 ∷ []) refl refl (omega arith) refl refl

ble_transfer_example :
    let bytes : List ℕ = 2 ∷ 1 ∷ 7 ∷ 8 ∷ [] in
    let received : Return × BleNetwork =
      ble_receive sal_ok (notification (some 10) bytes ∷ []) served_network in
    let popped : BleNetwork = record served_network {
      recv_array = [];
      bw_current_down = add_u32 0 4;
    } in
    (ble_push_frame caller true served_network first_frame
      ≡ some (
        default,
        record served_network { bw_current_up = add_u32 0 4 },
        wrote bytes (some 60) ∷ [],
      ))
    × (received.0 ≡ default)
    × (ble_pop_frame received.1 no_frame
        ≡ some (default, popped, record first_frame { data_ptr = 9002 }))
    × (read_bytes (block 9000 bytes) 9002 2 ≡ some (7 ∷ 8 ∷ []))
    × (ble_pop_frame popped no_frame ≡ some (buffer_empty, popped, reset_frame no_frame))
unfolding read_bytes
ble_transfer_example =
    ble_transfer caller served_network served_network sending_service (writable 60) first_frame
      no_frame (7 ∷ 8 ∷ []) 9000 refl refl (omega arith) (omega arith) refl refl refl

abbrev some_network_calls : List NetworkCall
some_network_calls =
    network_callback 7 70
    ∷ network_push caller true first_frame
    ∷ network_receive sal_ok (notification (some 10) (2 ∷ 1 ∷ 7 ∷ 8 ∷ []) ∷ [])
    ∷ network_pop no_frame
    ∷ network_lost
    ∷ []

open_ble_network-EndsOpening_example :
    EndsOpening drone empty_manager
      (connect_made (some (ring, ring)) (some 3) drone (some (0 ∷ [])))
      (open_ble_network false
        (made (some (ring, ring)))
        (some 3)
        (some drone)
        (some (0 ∷ []))
        empty_manager
        none)
open_ble_network-EndsOpening_example =
    open_ble_network-EndsOpening (some (ring, ring)) (some 3) drone (some (0 ∷ [])) empty_manager
      (refl, refl) (_, refl)

-- The peripheral has no service to receive from.
life_without_receiver :
    network_life ring ring (some 3) (record drone { services = sending_service ∷ [] }) none [] false
    ≡ some (
      ble_services_discovering,
      ok,
      some none,
      connected_to 9
          ∷ discovered_services
          ∷ discovered_characteristics 1
          ∷ released
          ∷ released
          ∷ reset_manager
          ∷ [],
    )
unfolding network_life ble_connect network_run ble_network_delete ble_disconnect
life_without_receiver = refl

-- Two waits that time out, with what is sent and received meanwhile, and one that is woken.
abbrev some_periods : List Period
some_periods =
    record { sent_sizes = 4 ∷ 20 ∷ []; received_sizes = 5 ∷ []; end = wait_failed etimedout }
    ∷ record { sent_sizes = []; received_sizes = 6 ∷ 7 ∷ []; end = wait_failed etimedout }
    ∷ record { sent_sizes = 9 ∷ []; received_sizes = []; end = woken }
    ∷ []

bandwidth-same_example :
    ((ble_bandwidth_loop some_periods served_network >>= views fresh)
      ≡ bandwidth_loop some_periods
          (as_sender fresh served_network)
          (as_receiver fresh served_network))
    × (ble_get_bandwidth (some (some served_network)) true false
        ≡ get_bandwidth (some (as_manager manager fresh served_network)) true false)
bandwidth-same_example = bandwidth-same some_periods fresh manager served_network true false
