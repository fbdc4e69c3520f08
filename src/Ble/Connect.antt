-- ===== src/Ble/Connect.antt =====
-- connectWithBTManager:peripheral:andTimeout:andNotificationIDArray: of
-- Sources/BLE/ARNETWORKAL_BLENetwork.m.
use lib_arnetwork_al.Prelude.{
  Bool, List, Option, [], false, get_elem?, if◌then◌else◌, length, none, set, some, suc, true, zero,
  ℕ, ◌&&◌, ◌++◌, ◌+◌, ◌==◌, ◌>>=◌, ◌∷◌,
}
use lib_arnetwork_al.Errors.{
  Error, bad_parameter, ble_characteristic_configuring, ble_connection, ble_disconnection,
  ble_services_discovering, main_thread, ok, is_ok,
}
use lib_arnetwork_al.Wifi.Bandwidth.{bw_nb_elems}
use lib_arnetwork_al.Ble.{
  is_sal_ok, BleEvent, BleNetwork, Characteristic, SalError, Service, characteristic_configuring,
  connected_to, discovered_characteristics, discovered_services, registered, sal_ok, set_delegate,
  set_notification,
}

-- A CBPeripheral: what connectToPeripheral and discoverNetworkServices answer for it, and its services
-- behind that.
pub record Peripheral : Type 0 where
  pub reference : ℕ
  pub connection : SalError
  pub discovery : SalError
  pub services : List Service

-- `discover all characteristics related to known services`: one service, before the others.
abbrev pub discover_service :
    (is_parrot : Bool) → SalError → (service : ℕ) → Error × List BleEvent → Error × List BleEvent
discover_service false answer service rest = rest
discover_service true sal_ok service rest = (rest.0, discovered_characteristics service ∷ rest.1)
discover_service true answer service rest =
    (ble_disconnection, discovered_characteristics service ∷ [])

abbrev pub discover_characteristics : List Service → Error × List BleEvent
discover_characteristics [] = (ok, [])
discover_characteristics (s ∷ ss) =
    discover_service s.is_parrot s.discovery s.reference (discover_characteristics ss)

-- A service is taken for a part that no service has yet, where its first characteristic has the
-- property of the part.
abbrev pub take_service : (Characteristic → Bool) → Service → Option Service → Option Service
take_service property s (some taken) = some taken
take_service property s none = elim s.characteristics [
  | [] ↦ none
  | c ∷ cs ↦ if s.is_parrot && property c then some s else none
]

-- The loop that looks for the sender's and the receiver's service, until both are found.
abbrev pub find_services :
    List Service → (sender receiver : Option Service) → Option Service × Option Service
find_services [] sender receiver = (sender, receiver)
find_services (s ∷ ss) (some x) (some y) = (some x, some y)
find_services (s ∷ ss) sender receiver =
    find_services ss (take_service (λ c. c.writes_without_response) s sender)
      (take_service (λ c. c.notifies) s receiver)

-- The characteristics to be notified of: those at the given indices, out of whose range objectAtIndex
-- raises an exception, or all.
abbrev pub selected : List Characteristic → List ℕ → Option (List Characteristic)
selected cs [] = some []
selected cs (i ∷ ids) = get_elem? cs i >>= λ c. selected cs ids >>= λ rest. some (c ∷ rest)

abbrev pub notification_characteristics :
    List Characteristic → (ids : Option (List ℕ)) → Option (List Characteristic)
notification_characteristics cs none = some cs
notification_characteristics cs (some ids) = selected cs ids

-- The error of one setNotificationCharacteristic, over the one so far.
abbrev pub notification_error : SalError → Error → Error
notification_error answer result = elim answer [
  | sal_ok ↦ result
  | characteristic_configuring ↦ ble_characteristic_configuring
  | _ ↦ ble_connection
]

abbrev pub added : SalError → ℕ → List ℕ → List ℕ
added answer c cs = elim answer [ sal_ok ↦ c ∷ cs | _ ↦ cs ]

-- `Registered notification service for receiver`: the error, the characteristics that were set, and the
-- messages; one characteristic, before the others.
abbrev pub set_one :
    (notifies : Bool)
    → SalError
    → (characteristic : ℕ) → Error × List ℕ × List BleEvent
    → Error × List ℕ × List BleEvent
set_one false answer c rest = rest
set_one true answer c rest = (rest.0, added answer c rest.1, set_notification c ∷ rest.2)

abbrev pub set_notifications : List Characteristic → Error → Error × List ℕ × List BleEvent
set_notifications [] result = (result, [], [])
set_notifications (c ∷ cs) result =
    set_one c.notifies c.notification c.reference (
      set_notifications cs
        (if c.notifies then notification_error c.notification result else result))

-- The last loop, over the FTP characteristics of one service, and of all.
abbrev pub set_ftp_one :
    (is_ftp : Bool)
    → SalError
    → (characteristic : ℕ) → Error × List BleEvent
    → Error × List BleEvent
set_ftp_one false answer c rest = rest
set_ftp_one true sal_ok c rest = (rest.0, set_notification c ∷ rest.1)
set_ftp_one true answer c rest = (ble_characteristic_configuring, set_notification c ∷ [])

abbrev pub set_ftp_characteristics : List Characteristic → Error × List BleEvent
set_ftp_characteristics [] = (ok, [])
set_ftp_characteristics (c ∷ cs) =
    set_ftp_one (c.notifies && c.is_ftp) c.ftp_notification c.reference (set_ftp_characteristics cs)

abbrev pub set_ftp_service :
    (is_parrot : Bool) → Error × List BleEvent → Error × List BleEvent → Error × List BleEvent
set_ftp_service false own rest = rest
set_ftp_service true own rest = if is_ok own.0 then (rest.0, own.1 ++ rest.1) else own

abbrev pub set_ftp_services : List Service → Error × List BleEvent
set_ftp_services [] = (ok, [])
set_ftp_services (s ∷ ss) =
    set_ftp_service s.is_parrot (set_ftp_characteristics s.characteristics) (set_ftp_services ss)

abbrev pub set_ftp : Error → List Service → Error × List BleEvent
set_ftp result services = if is_ok result then set_ftp_services services else (result, [])

-- `for (i < ARNETWORKAL_BW_NB_ELEMS) elements[i] = 0`
abbrev pub zeros : ℕ → List ℕ
zeros zero = []
zeros (suc k) = 0 ∷ zeros k

abbrev pub cleared : List ℕ → Option (List ℕ)
cleared elements = if length elements == bw_nb_elems then some (zeros bw_nb_elems) else none

-- The object once both services are found, and the notifications set.
abbrev pub established_network :
    (central_manager : Option ℕ)
    → (peripheral : ℕ) → (sender receiver : Service) → (set up down : List ℕ) → BleNetwork
    → BleNetwork
established_network central_manager p sender receiver set up down n = record n {
  bw_index = 0;
  bw_current_up = 0;
  bw_current_down = 0;
  bw_elements_up = up;
  bw_elements_down = down;
  bw_thread_running = n.bw_thread_running + 1;
  central_manager = central_manager;
  peripheral = some p;
  send_service = some sender;
  recv_service = some receiver;
  recv_notification_characteristics = set;
}

-- What follows once both services are found.
unfoldable pub establish :
    (central_manager : Option ℕ)
    → Peripheral
    → (ids : Option (List ℕ)) → (sender receiver : Service) → BleNetwork
    → Option (Error × BleNetwork × List BleEvent)
establish central_manager p ids sender receiver n = do
  up ← cleared n.bw_elements_up
  down ← cleared n.bw_elements_down
  chosen ← notification_characteristics receiver.characteristics ids
  let (result, set, events) = set_notifications chosen ok
  let (result', events') = set_ftp result p.services
  some (
    result',
    established_network central_manager p.reference sender receiver set up down n,
    set_delegate true ∷ (events ++ (registered set ∷ events')),
  )

abbrev pub after_events :
    List BleEvent
    → Option (Error × BleNetwork × List BleEvent)
    → Option (Error × BleNetwork × List BleEvent)
after_events before none = none
after_events before (some (result, n, events)) = some (result, n, before ++ events)

abbrev pub establish_found :
    (central_manager : Option ℕ)
    → Peripheral
    → (ids : Option (List ℕ)) → Option Service × Option Service
    → BleNetwork
    → Option (Error × BleNetwork × List BleEvent)
establish_found central_manager p ids (some sender, some receiver) n =
    establish central_manager p ids sender receiver n
establish_found central_manager p ids (some sender, none) n = some (ble_services_discovering, n, [])
establish_found central_manager p ids (none, receiver) n = some (ble_services_discovering, n, [])

-- The method. An exception is `none`.
unfoldable pub ble_connect :
    (on_main_thread : Bool)
    → (central_manager : Option ℕ) → Option Peripheral
    → (ids : Option (List ℕ)) → BleNetwork
    → Option (Error × BleNetwork × List BleEvent)
ble_connect true central_manager p ids n = some (main_thread, n, [])
ble_connect false central_manager none ids n = some (bad_parameter, n, [])
ble_connect false central_manager (some p) ids n =
    let n = record n { recv_notification_characteristics = [] } in
    let discovered = discover_characteristics p.services in
    let found = find_services p.services none none in
    let opening = connected_to p.reference ∷ discovered_services ∷ [] in
    if is_sal_ok p.connection
    then (if is_sal_ok p.discovery
        then (if is_ok discovered.0
            then after_events (opening ++ discovered.1)
                (establish_found central_manager p ids found n)
            else some (discovered.0, n, opening ++ discovered.1))
        else some (ble_disconnection, n, opening))
    else some (ble_connection, n, connected_to p.reference ∷ [])
