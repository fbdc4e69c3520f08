-- ===== src/Errors.antt =====
-- eARNETWORKAL_ERROR of Includes/libARNetworkAL/ARNETWORKAL_Error.h.
pub mod Text
use lib_arnetwork_al.Prelude.{Bool, false, true}

pub data Error : Type 0 where
  ok generic_error alloc bad_parameter fifo_init main_thread : Error
  manager_error manager_operation_not_supported : Error
  network network_type : Error
  wifi wifi_socket_creation wifi_socket_permission_denied : Error
  wifi_socket_getopt wifi_socket_setopt : Error
  ble_connection ble_not_connected ble_disconnection ble_services_discovering : Error
  ble_characteristics_discovering ble_characteristic_configuring ble_stack : Error

abbrev pub is_ok : Error → Bool
is_ok e = elim e [ ok ↦ true | _ ↦ false ]
