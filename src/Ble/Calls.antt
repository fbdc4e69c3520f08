-- ===== src/Ble/Calls.antt =====
-- initWithManager:, disconnect and onBLEDisconnect of Sources/BLE/ARNETWORKAL_BLENetwork.m, and its C
-- functions. A message to nil gives 0, which is OK and DEFAULT.
use lib_arnetwork_al.Prelude.{
  Bool, List, Option, [], false, if◌then◌else◌, none, some, suc, zero, ℕ, ◌++◌, ◌+◌, ◌>>=◌, ◌∷◌,
}
use lib_arnetwork_al.Platform.{Memory}
use lib_arnetwork_al.Errors.{Error, alloc, bad_parameter, main_thread, ok}
use lib_arnetwork_al.Frame.{Frame, Return, default}
use lib_arnetwork_al.Ble.{
  BleEvent, BleNetwork, NotificationData, SalError, ble_notified, disconnected_from, released,
  reset_manager, set_delegate, unlocked_manager,
}
use lib_arnetwork_al.Ble.Frames.{ble_pop_frame, ble_push_frame, ble_receive}
use lib_arnetwork_al.Ble.Connect.{Peripheral, ble_connect}

-- initWithManager:, with what lies in the two rings, which are empty where malloc gives NULL.
abbrev pub init_network : (up down : List ℕ) → BleNetwork
init_network up down = record {
  peripheral = none;
  central_manager = none;
  recv_service = none;
  send_service = none;
  recv_array = [];
  recv_notification_characteristics = [];
  bw_elements_up = up;
  bw_elements_down = down;
  bw_index = 0;
  bw_current_up = 0;
  bw_current_down = 0;
  bw_sem = 0;
  bw_thread_running = 0;
  on_disconnect = none;
  on_disconnect_custom_data = 0;
  retains = 0;
}

-- The post of `_bw_sem` and the wait for `_bw_threadRunning`. Where its count is 0 the wait ends if the
-- bandwidth thread, `thread`, takes the post, ends and posts in its turn, and else never.
abbrev pub wait_for_thread : (thread : Bool) → BleNetwork → Option BleNetwork
wait_for_thread thread n = elim n.bw_thread_running [
  | zero ↦ if thread then some n else none
  | suc k ↦ some (record n { bw_sem = n.bw_sem + 1; bw_thread_running = k })
]

-- disconnect
unfoldable pub ble_disconnect :
    (on_main_thread thread : Bool) → BleNetwork → Option (Error × BleNetwork × List BleEvent)
ble_disconnect on_main_thread thread n = elim n.peripheral [
  | none ↦ some (ok, n, [])
  | some p ↦ if on_main_thread then some (main_thread, n, []) else do
    n ← wait_for_thread thread n
    some (ok, record n { peripheral = none }, set_delegate false ∷ disconnected_from p ∷ [])
]

-- onBLEDisconnect
abbrev pub on_ble_disconnect : BleNetwork → List BleEvent
on_ble_disconnect n = elim n.on_disconnect [
  | none ↦ []
  | some callback ↦ ble_notified callback n.on_disconnect_custom_data ∷ []
]

-- ARNETWORKAL_BLENetwork_New: the object that a manager has, to which its two pointers lead; `object`
-- is what initWithManager: gives.
abbrev pub ble_network_new :
    (object : Option BleNetwork) → Option (Option BleNetwork) → Error × Option (Option BleNetwork)
ble_network_new object none = (bad_parameter, none)
ble_network_new none (some before) = (alloc, some before)
ble_network_new (some n) (some before) = (ok, some (some (record n { retains = n.retains + 2 })))

-- ARNETWORKAL_BLENetwork_Cancel
unfoldable pub ble_network_cancel :
    (on_main_thread thread : Bool)
    → Option (Option BleNetwork)
    → Option (Error × Option (Option BleNetwork) × List BleEvent)
ble_network_cancel on_main_thread thread none = some (bad_parameter, none, [])
ble_network_cancel on_main_thread thread (some none) = some (ok, some none, reset_manager ∷ [])
ble_network_cancel on_main_thread thread (some (some n)) = do
  (error, n, events) ← ble_disconnect on_main_thread thread n
  some (error, some (some n), events ++ (reset_manager ∷ []))

-- CFRelease of the two pointers. When `dealloc` comes behind it is left open: the variable of the
-- function may still hold the object.
abbrev pub release_both : List BleEvent
release_both = released ∷ released ∷ []

-- ARNETWORKAL_BLENetwork_Delete
unfoldable pub ble_network_delete :
    (on_main_thread thread : Bool)
    → Option (Option BleNetwork)
    → Option (Error × Option (Option BleNetwork) × List BleEvent)
ble_network_delete on_main_thread thread none = some (bad_parameter, none, [])
ble_network_delete on_main_thread thread (some none) = some (ok, some none, [])
ble_network_delete on_main_thread thread (some (some n)) = do
  (error, n, events) ←
      ble_disconnect on_main_thread thread
        (record n { on_disconnect = none; on_disconnect_custom_data = 0 })
  some (error, some none, events ++ (release_both ++ (reset_manager ∷ [])))

-- ARNETWORKAL_BLENetwork_PushFrame, _PopFrame and _Receive
abbrev pub ble_network_push_frame :
    Memory
    → (written : Bool) → Option BleNetwork
    → Frame
    → Option (Return × Option BleNetwork × List BleEvent)
ble_network_push_frame mem written none f = some (default, none, [])
ble_network_push_frame mem written (some n) f =
    ble_push_frame mem written n f >>= λ (r, n', events). some (r, some n', events)

abbrev pub ble_network_pop_frame :
    Option BleNetwork → Frame → Option (Return × Option BleNetwork × Frame)
ble_network_pop_frame none f = some (default, none, f)
ble_network_pop_frame (some n) f = ble_pop_frame n f >>= λ (r, n', f'). some (r, some n', f')

abbrev pub ble_network_receive :
    SalError → List NotificationData → Option BleNetwork → Return × Option BleNetwork
ble_network_receive answer notifications none = (default, none)
ble_network_receive answer notifications (some n) =
    let (r, n') = ble_receive answer notifications n in (r, some n')

-- ARNETWORKAL_BLENetwork_Unlock
abbrev pub ble_network_unlock : Error × List BleEvent
ble_network_unlock = (ok, unlocked_manager ∷ [])

-- ARNETWORKAL_BLENetwork_Connect
abbrev pub ble_network_connect :
    (on_main_thread : Bool)
    → (central_manager : Option ℕ) → Option Peripheral
    → (ids : Option (List ℕ)) → Option BleNetwork
    → Option (Error × Option BleNetwork × List BleEvent)
ble_network_connect on_main_thread central_manager p ids none = some (ok, none, [])
ble_network_connect on_main_thread central_manager p ids (some n) =
    ble_connect on_main_thread central_manager p ids n >>= λ (error, n', events).
    some (error, some n', events)

-- ARNETWORKAL_BLENetwork_SetOnDisconnectCallback
abbrev pub ble_network_set_on_disconnect_callback :
    (callback : Option ℕ)
    → (custom_data : ℕ) → Option (Option BleNetwork)
    → Error × Option (Option BleNetwork)
ble_network_set_on_disconnect_callback none custom_data m = (bad_parameter, m)
ble_network_set_on_disconnect_callback (some callback) custom_data none = (bad_parameter, none)
ble_network_set_on_disconnect_callback (some callback) custom_data (some none) =
    (bad_parameter, some none)
ble_network_set_on_disconnect_callback (some callback) custom_data (some (some n)) = (
  ok,
  some (some (record n { on_disconnect = some callback; on_disconnect_custom_data = custom_data })),
)
