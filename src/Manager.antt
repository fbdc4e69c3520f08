-- ===== src/Manager.antt =====
-- ARNETWORKAL_Manager_InitWifiNetwork and _CloseWifiNetwork of Sources/ARNETWORKAL_Manager.c, and the
-- table of functions that a manager carries.
pub mod Clean
pub mod Generic
pub mod Ble
pub mod BleOpening
pub mod Dump
pub mod Reach
pub mod Popping
use lib_arnetwork_al.Prelude.{Bool, Option, if◌then◌else◌, none, not, some, ℕ, ℤ, ◌==◌}
use lib_arnetwork_al.Platform.{Platform}
use lib_arnetwork_al.Errors.{Error, bad_parameter, network, ok}
use lib_arnetwork_al.Wifi.{Manager, max_data_buffer_size}
use lib_arnetwork_al.Wifi.Lifecycle.{Mallocs, SetupReplies, bind, connect, new}
use lib_arnetwork_al.Wifi.Lifecycle.Release.{Deleted, delete}

-- A network with functions for a manager: those of ARNETWORKAL_WifiNetwork.c, _MuxNetwork.c,
-- _BLENetwork.m and _JNIBLENetwork.c.
pub data Network : Type 0 where
  wifi_network mux_network ble_network jni_ble_network : Network

-- What a function of a network is for, named as the pointer that is meant for it.
pub data Operation : Type 0 where
  push_frame_function pop_frame_function send_function receive_function : Operation
  unlock_function get_bandwidth_function bandwidth_thread_function
        set_on_disconnect_callback_function :
      Operation
  set_send_buffer_size_function set_recv_buffer_size_function get_send_buffer_size_function
        get_recv_buffer_size_function :
      Operation
  set_send_class_selector_function set_recv_class_selector_function get_send_class_selector_function
        get_recv_class_selector_function :
      Operation

-- A function of a network, as ARNETWORKAL_WifiNetwork_PushFrame is `function_of wifi_network
-- push_frame_function`; the one for `unlock` is named Signal in the WiFi network.
pub data Function : Type 0 where
  function_of : Network → Operation → Function

-- The pointers of ARNETWORKAL_Manager_t to functions, `none` for NULL.
pub record Operations : Type 0 where
  pub push_frame_op : Option Function
  pub pop_frame_op : Option Function
  pub send_op : Option Function
  pub receive_op : Option Function
  pub unlock_op : Option Function
  pub get_bandwidth_op : Option Function
  pub bandwidth_thread_op : Option Function
  pub set_on_disconnect_callback_op : Option Function
  pub set_send_buffer_size_op : Option Function
  pub set_recv_buffer_size_op : Option Function
  pub get_send_buffer_size_op : Option Function
  pub get_recv_buffer_size_op : Option Function
  pub set_send_class_selector_op : Option Function
  pub set_recv_class_selector_op : Option Function
  pub get_send_class_selector_op : Option Function
  pub get_recv_class_selector_op : Option Function

-- ARNETWORKAL_Manager_t: the objects and the dump file, the table, and the network's two limits.
pub record NetworkManager : Type 0 where
  pub objects : Manager
  pub operations : Operations
  pub max_ids : ℕ
  pub max_buffer_size : ℕ

-- ARNETWORKAL_MANAGER_WIFI_ID_MAX
abbrev pub manager_wifi_id_max : ℕ
manager_wifi_id_max = 256

-- The table that InitWifiNetwork fills: every pointer.
abbrev pub wifi_operations : Operations
wifi_operations = record {
  push_frame_op = some (function_of wifi_network push_frame_function);
  pop_frame_op = some (function_of wifi_network pop_frame_function);
  send_op = some (function_of wifi_network send_function);
  receive_op = some (function_of wifi_network receive_function);
  unlock_op = some (function_of wifi_network unlock_function);
  get_bandwidth_op = some (function_of wifi_network get_bandwidth_function);
  bandwidth_thread_op = some (function_of wifi_network bandwidth_thread_function);
  set_on_disconnect_callback_op =
      some (function_of wifi_network set_on_disconnect_callback_function);
  set_send_buffer_size_op = some (function_of wifi_network set_send_buffer_size_function);
  set_recv_buffer_size_op = some (function_of wifi_network set_recv_buffer_size_function);
  get_send_buffer_size_op = some (function_of wifi_network get_send_buffer_size_function);
  get_recv_buffer_size_op = some (function_of wifi_network get_recv_buffer_size_function);
  set_send_class_selector_op = some (function_of wifi_network set_send_class_selector_function);
  set_recv_class_selector_op = some (function_of wifi_network set_recv_class_selector_function);
  get_send_class_selector_op = some (function_of wifi_network get_send_class_selector_function);
  get_recv_class_selector_op = some (function_of wifi_network get_recv_class_selector_function);
}

-- `if (error == ARNETWORKAL_OK)`: the next call, where no error occurred.
abbrev pub and_then :
    Error × Option Manager → (Option Manager → Error × Option Manager) → Error × Option Manager
and_then (result, m) next = elim result [ ok ↦ next m | failure ↦ (failure, m) ]

-- The three calls of the initialisation.
abbrev pub init_objects :
    Mallocs
    → SetupReplies
    → SetupReplies
    → (recv_timeout_sec : ℤ) → Manager
    → Error × Option Manager
init_objects ms env_s env_r recv_timeout_sec m =
    and_then (and_then (new ms (some m)) (connect env_s)) (bind env_r recv_timeout_sec)

-- How an initialisation ends: the manager is ready, or an error is returned behind what Delete did.
pub data Initialised : Type 0 where
  initialised : NetworkManager → Initialised
  refused : Error → Deleted → Initialised

-- What follows the three calls. Their manager is the one that they were given, and not NULL.
abbrev pub finish_init : Platform → Error × Option Manager → Initialised
finish_init p (result, objects) = elim result [
  | ok ↦ elim objects [
    | none ↦ refused bad_parameter (delete none)
    | some objects' ↦ initialised (record {
      objects = objects';
      operations = wifi_operations;
      max_ids = manager_wifi_id_max;
      max_buffer_size = max_data_buffer_size p;
    })
  ]
  | failure ↦ refused failure (delete objects)
]

-- ARNETWORKAL_Manager_InitWifiNetwork; `addr` is whether the address is not NULL.
unfoldable pub init_wifi_network :
    Platform
    → Mallocs
    → SetupReplies
    → SetupReplies
    → (addr : Bool) → (recv_timeout_sec : ℤ) → Option NetworkManager
    → Initialised
init_wifi_network p ms env_s env_r addr recv_timeout_sec none = refused bad_parameter (delete none)
init_wifi_network p ms env_s env_r addr recv_timeout_sec (some m) =
    if addr
    then finish_init p (init_objects ms env_s env_r recv_timeout_sec m.objects)
    else refused bad_parameter (delete (some m.objects))

-- ARNETWORKAL_Manager_CloseWifiNetwork
abbrev pub close_wifi_network : Option NetworkManager → Deleted
close_wifi_network none = delete none
close_wifi_network (some m) = delete (some m.objects)
