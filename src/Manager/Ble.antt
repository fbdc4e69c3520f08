-- ===== src/Manager/Ble.antt =====
-- ARNETWORKAL_Manager_InitBLENetwork, _CancelBLENetwork and _CloseBLENetwork of
-- Sources/ARNETWORKAL_Manager.c, and _CancelWifiNetwork. The BLE network's functions are seen through
-- what they return here, and `core_bluetooth` is whether the library is built with CoreBluetooth.
use lib_arnetwork_al.Prelude.{Bool, false, true, List, Option, [], none, some, ◌∷◌, ℕ}
use lib_arnetwork_al.Errors.{Error, bad_parameter, network_type, ok}
use lib_arnetwork_al.Wifi.Lifecycle.{cancel}
use lib_arnetwork_al.Manager.{
  bandwidth_thread_function, get_bandwidth_function, pop_frame_function, push_frame_function,
  receive_function, send_function, set_on_disconnect_callback_function, unlock_function,
  function_of, ble_network, NetworkManager, Operations,
}

-- The calls of the BLE network's functions, each with whether the manager is not NULL.
pub data BleRequest : Type 0 where
  ble_new_called ble_connect_called ble_cancel_called : BleRequest
  ble_delete_called : (manager : Bool) → BleRequest

-- ARNETWORKAL_MANAGER_BLE_ID_MAX
abbrev pub manager_ble_id_max : ℕ
manager_ble_id_max = 32

-- ARNETWORKAL_BLENETWORK_MAX_BUFFER_SIZE
abbrev pub manager_ble_max_buffer_size : ℕ
manager_ble_max_buffer_size = 18

-- The ten pointers that InitBLENetwork sets.
abbrev pub ble_operations : Operations → Operations
ble_operations o = record o {
  push_frame_op = some (function_of ble_network push_frame_function);
  pop_frame_op = some (function_of ble_network pop_frame_function);
  send_op = some (function_of ble_network send_function);
  receive_op = some (function_of ble_network receive_function);
  unlock_op = some (function_of ble_network unlock_function);
  get_bandwidth_op = some (function_of ble_network get_bandwidth_function);
  bandwidth_thread_op = some (function_of ble_network bandwidth_thread_function);
  set_on_disconnect_callback_op =
      some (function_of ble_network set_on_disconnect_callback_function);
}

-- ARNETWORKAL_Manager_InitBLENetwork, with what New and Connect return.
abbrev pub init_ble_network :
    (core_bluetooth : Bool)
    → (new_result connect_result : Error) → Option NetworkManager
    → Error × Option NetworkManager × List BleRequest
init_ble_network false new_result connect_result m = (network_type, m, [])
init_ble_network true new_result connect_result none =
    (bad_parameter, none, ble_delete_called false ∷ [])
init_ble_network true new_result connect_result (some m) = elim new_result [
  | ok ↦ elim connect_result [
    | ok ↦ (
      ok,
      some (record m {
        operations = ble_operations m.operations;
        max_ids = manager_ble_id_max;
        max_buffer_size = manager_ble_max_buffer_size;
      }),
      ble_new_called ∷ ble_connect_called ∷ [],
    )
    | failure ↦ (failure, some m, ble_new_called ∷ ble_connect_called ∷ ble_delete_called true ∷ [])
  ]
  | failure ↦ (failure, some m, ble_new_called ∷ ble_delete_called true ∷ [])
]

-- ARNETWORKAL_Manager_CancelBLENetwork; `result` is what Cancel of the BLE network returns.
abbrev pub cancel_ble_network :
    (core_bluetooth : Bool) → (result : Error) → Option NetworkManager → Error × List BleRequest
cancel_ble_network false result m = (network_type, [])
cancel_ble_network true result none = (bad_parameter, [])
cancel_ble_network true result (some m) = (result, ble_cancel_called ∷ [])

-- ARNETWORKAL_Manager_CloseBLENetwork; `result` is what Delete of the BLE network returns.
abbrev pub close_ble_network :
    (core_bluetooth : Bool) → (result : Error) → Option NetworkManager → Error × List BleRequest
close_ble_network false result m = (network_type, [])
close_ble_network true result none = (ok, [])
close_ble_network true result (some m) = (result, ble_delete_called true ∷ [])

-- ARNETWORKAL_Manager_CancelWifiNetwork
abbrev pub cancel_wifi_network : Option NetworkManager → Error
cancel_wifi_network none = bad_parameter
cancel_wifi_network (some m) = cancel (some m.objects)
