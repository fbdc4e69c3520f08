-- ===== src/Ble/Life.antt =====
-- The life of one object of Sources/BLE/ARNETWORKAL_BLENetwork.m: New, Connect, any calls, and Delete,
-- and what is asked of the messages that they send.
pub mod Opening
pub mod Steps
pub mod Whole
use lib_arnetwork_al.Prelude.{
  zero, suc, Bool, List, Option, [], false, get_elem?, if◌then◌else◌, monitor, none, not, some,
  sub_word, true, u32_mod, ℕ, ◌%◌, ◌++◌, ◌-◌, ◌==◌, ◌>>=◌, ◌∷◌, ◌≡◌,
}
use lib_arnetwork_al.Platform.{Memory, read_bytes}
use lib_arnetwork_al.Errors.{Error}
use lib_arnetwork_al.Frame.{Frame, header_size}
use lib_arnetwork_al.Ble.{
  BleEvent, BleNetwork, Characteristic, NotificationData, SalError, Service, ble_notified,
  connected_to, disconnected_from, released, discovered_characteristics, discovered_services,
  registered, reset_manager, set_delegate, set_notification, wrote,
}
use lib_arnetwork_al.Ble.Frames.{ble_pop_frame, ble_push_frame, ble_receive}
use lib_arnetwork_al.Ble.Connect.{Peripheral, ble_connect}
use lib_arnetwork_al.Ble.Calls.{
  ble_network_delete, ble_network_new, init_network, on_ble_disconnect,
}
use lib_arnetwork_al.Ble.Queue.{AllHaveHeads, message}

-- A call between Connect and Delete, or a notice of CoreBluetooth, with what is answered.
pub data NetworkCall : Type 0 where
  network_push : Memory → (written : Bool) → Frame → NetworkCall
  network_pop : Frame → NetworkCall
  network_receive : SalError → List NotificationData → NetworkCall
  network_callback : (callback custom_data : ℕ) → NetworkCall
  network_lost : NetworkCall

-- What a call needs: a frame's data that can be read, and, where the sender's service was found, a
-- characteristic at its identifier; and notifications whose values do not end behind their first byte.
abbrev pub IsAnswered : (sender : Option Service) → NetworkCall → Type 0
IsAnswered sender (network_push mem written f) =
    (payload : List ℕ) × (read_bytes mem f.data_ptr (sub_word f.size header_size % u32_mod)
      ≡ some payload)
    × ((s : Service)
        → sender ≡ some s
        → (c : Characteristic) × (get_elem? s.characteristics f.id ≡ some c))
IsAnswered sender (network_pop f) = Unit {0}
IsAnswered sender (network_receive answer ds) = AllHaveHeads ds
IsAnswered sender (network_callback callback custom_data) = Unit {0}
IsAnswered sender network_lost = Unit {0}

abbrev pub AllAnswered : Option Service → List NetworkCall → Type 0
AllAnswered sender [] = Unit {0}
AllAnswered sender (c ∷ cs) = IsAnswered sender c × AllAnswered sender cs

-- A call, its result aside.
abbrev pub network_step : NetworkCall → BleNetwork → Option (BleNetwork × List BleEvent)
network_step (network_push mem written f) n =
    ble_push_frame mem written n f >>= λ (r, n', es). some (n', es)
network_step (network_pop f) n = ble_pop_frame n f >>= λ (r, n', f'). some (n', [])
network_step (network_receive answer ds) n = some ((ble_receive answer ds n).1, [])
network_step (network_callback callback custom_data) n =
    some (record n { on_disconnect = some callback; on_disconnect_custom_data = custom_data }, [])
network_step network_lost n = some (n, on_ble_disconnect n)

unfoldable pub network_run : List NetworkCall → BleNetwork → Option (BleNetwork × List BleEvent)
network_run [] n = some (n, [])
network_run (c ∷ cs) n =
    network_step c n >>= λ (n', es). network_run cs n' >>= λ (n'', es'). some (n'', es ++ es')

-- The bandwidth thread in its loop, where `ARSAL_Sem_Trywait` got the semaphore.
abbrev pub with_thread : (started : Bool) → BleNetwork → BleNetwork
with_thread started n = elim n.bw_thread_running [
  | zero ↦ n
  | suc k ↦ if started then record n { bw_thread_running = k } else n
]

-- New on a manager without an object, Connect, the calls, and Delete, while
-- the bandwidth thread is in its loop or was not started: the results of Connect and Delete, what the
-- manager then has, and the messages.
unfoldable pub network_life :
    (up down : List ℕ)
    → (central_manager : Option ℕ) → Peripheral
    → (ids : Option (List ℕ)) → List NetworkCall
    → (started : Bool) → Option (Error × Error × Option (Option BleNetwork) × List BleEvent)
network_life up down central_manager p ids cs started =
    elim (ble_network_new (some (init_network up down)) (some none)).1 [
      | some (some n) ↦ do
        (connected, n, es) ← ble_connect false central_manager (some p) ids n
        (n, es') ← network_run cs n
        (closed, left, es'') ←
            ble_network_delete false started (some (some (with_thread started n)))
        some (connected, closed, left, es ++ (es' ++ es''))
      | _ ↦ none
    ]

-- The object's link: none, to a peripheral that Connect was given, in service with the object as the
-- BLE manager's delegate, no delegate any more, and one or both of the
-- manager's references to the object given back.
pub data Link : Type 0 where
  unlinked : Link
  linked serving leaving : (peripheral : ℕ) → Link
  half_released gone : Link

-- What each message asks of the link, and what it makes of it.
abbrev pub follow_link : BleEvent → Link → Option Link
follow_link (connected_to p) unlinked = some (linked p)
follow_link discovered_services (linked p) = some (linked p)
follow_link (discovered_characteristics s) (linked p) = some (linked p)
follow_link (set_delegate true) (linked p) = some (serving p)
follow_link (set_notification c) (serving p) = some (serving p)
follow_link (registered cs) (serving p) = some (serving p)
follow_link (wrote bytes (some c)) (serving p) = some (serving p)
follow_link (wrote bytes none) (linked p) = some (linked p)
follow_link (ble_notified callback custom_data) (linked p) = some (linked p)
follow_link (ble_notified callback custom_data) (serving p) = some (serving p)
follow_link (set_delegate false) (serving p) = some (leaving p)
follow_link (disconnected_from q) (leaving p) = if q == p then some unlinked else none
follow_link released unlinked = some half_released
follow_link released (linked p) = some half_released
follow_link released half_released = some gone
follow_link reset_manager gone = some gone
follow_link e link = none

abbrev pub links : List BleEvent → Link → Option Link
links = monitor follow_link
