-- ===== src/JniManager.antt =====
-- The native methods of the Java class ARNetworkALManager, in JNI/c/ARNETWORKAL_JNIManager.c.
pub mod Life
use lib_arnetwork_al.Manager.Generic.{
  manager_set_recv_buffer_size, manager_set_recv_class_selector, manager_set_send_buffer_size,
  manager_set_send_class_selector, manager_unlock,
}
use lib_arnetwork_al.Wifi.Lifecycle.Release.{Deleted}
use lib_arnetwork_al.Prelude.{
  Bool, List, Option, [], if◌then◌else◌, none, some, true, ℕ, ℤ, ◌++◌, ◌==◌, ◌>>=◌, ◌∷◌,
}
use lib_arnetwork_al.Platform.{Platform}
use lib_arnetwork_al.Errors.{Error, bad_parameter, ok}
use lib_arnetwork_al.Wifi.Lifecycle.{Mallocs, SetupReplies}
use lib_arnetwork_al.Manager.{
  pop_frame_function, push_frame_function, receive_function, send_function,
  set_on_disconnect_callback_function, unlock_function, function_of, jni_ble_network, Function,
  close_wifi_network, Initialised, NetworkManager, Operations, init_wifi_network,
  manager_wifi_id_max,
}
use lib_arnetwork_al.Manager.Ble.{manager_ble_id_max}
use lib_arnetwork_al.Manager.Dump.{
  DumpEvent, dump_data, enable_data_dump, manager_default_id_max, manager_delete, manager_new,
}
use lib_arnetwork_al.Mux.Network.{ContextEvent, MuxManager, close_mux_network, init_mux_manager}
use lib_arnetwork_al.JniBle.{BleManager, JniEvent, Thread, ble_max_buffer_size}
use lib_arnetwork_al.JniBle.Object.{ObjectReplies}
use lib_arnetwork_al.JniBle.Calls.{jni_ble_delete, jni_ble_new, jni_cancel, jni_connect}

-- JNI_OnLoad: the virtual machine that is kept, and the version.
abbrev pub jni_on_load : (vm : ℕ) → Option ℕ × ℕ
jni_on_load vm = (some vm, 65542)

-- nativeGetDefineDefaultIdMAX, nativeGetDefineWifiIdMAX and nativeGetDefineBleIdMAX
abbrev pub native_default_id_max : ℕ
native_default_id_max = manager_default_id_max

abbrev pub native_wifi_id_max : ℕ
native_wifi_id_max = manager_wifi_id_max

abbrev pub native_ble_id_max : ℕ
native_ble_id_max = manager_ble_id_max

-- nativeNew: the manager, `none` for 0.
abbrev pub native_new : (allocated : Bool) → Option NetworkManager
native_new allocated = (manager_new allocated true).0

-- nativeDelete; the address that Java holds stays as it is.
abbrev pub native_delete : Option NetworkManager → List DumpEvent
native_delete m = (manager_delete (some m)).1

-- GetStringUTFChars and ReleaseStringUTFChars of a string.
pub data StringEvent : Type 0 where
  string_taken string_released : (string : ℕ) → StringEvent

-- nativeInitWifiNetwork; `addr` is whether GetStringUTFChars gives the address's bytes.
abbrev pub native_init_wifi_network :
    Platform
    → Mallocs
    → SetupReplies
    → SetupReplies
    → (string : ℕ) → (addr : Bool) → (recv_timeout_sec : ℤ) → Option NetworkManager
    → Initialised × List StringEvent
native_init_wifi_network p ms env_s env_r string addr recv_timeout_sec m = (
  init_wifi_network p ms env_s env_r addr recv_timeout_sec m,
  string_taken string ∷ string_released string ∷ [],
)

-- nativeInitMuxNetwork: nothing is done where the manager or the context is NULL, and OK returned.
abbrev pub native_init_mux_network :
    (ctx : Option ℕ)
    → (allocated : Bool) → (queue : Option ℕ) → Option MuxManager
    → Error × Option MuxManager × List ContextEvent
native_init_mux_network none allocated queue m = (ok, m, [])
native_init_mux_network (some ctx) allocated queue none = (ok, none, [])
native_init_mux_network (some ctx) allocated queue (some m) =
    init_mux_manager (some ctx) allocated queue (some m)

-- nativeCloseMuxNetwork
abbrev pub native_close_mux_network :
    Option MuxManager → Option (Error × Option MuxManager × List ContextEvent)
native_close_mux_network = close_mux_network

-- A manager with its BLE network: the table and the limits, and what the BLE network sees of it.
pub record JniManager : Type 0 where
  pub network : NetworkManager
  pub ble : BleManager

-- The eight pointers and limits that nativeInitBLENetwork sets; the functions for the bandwidth and
-- for the buffers stay as they are.
abbrev pub jni_ble_operations : Operations → Operations
jni_ble_operations o = record o {
  push_frame_op = some (function_of jni_ble_network push_frame_function);
  pop_frame_op = some (function_of jni_ble_network pop_frame_function);
  send_op = some (function_of jni_ble_network send_function);
  receive_op = some (function_of jni_ble_network receive_function);
  unlock_op = some (function_of jni_ble_network unlock_function);
  set_on_disconnect_callback_op =
      some (function_of jni_ble_network set_on_disconnect_callback_function);
}

abbrev pub with_jni_ble : NetworkManager → NetworkManager
with_jni_ble m = record m {
  operations = jni_ble_operations m.operations;
  max_ids = manager_ble_id_max;
  max_buffer_size = ble_max_buffer_size;
}

-- nativeInitBLENetwork, on a thread of Java; `reply` is what the Java method connect returns. Where
-- Connect fails, what New made is left to the manager.
unfoldable pub native_init_ble_network :
    Thread
    → ObjectReplies
    → (device notification_ids : ℕ) → (reply : Error) → Option JniManager
    → Option (Error × Option JniManager × List JniEvent)
native_init_ble_network t env device notification_ids reply none = some (bad_parameter, none, [])
native_init_ble_network t env device notification_ids reply (some m) = do
  (result, ble, es) ← jni_ble_new t env (some m.ble)
  ble ← ble
  elim result [
    | ok ↦ do
      (result, es') ← jni_connect t device notification_ids reply ble
      some (
        result,
        some (record m {
          network = elim result [ ok ↦ with_jni_ble m.network | _ ↦ m.network ];
          ble = ble;
        }),
        es ++ es',
      )
    | failure ↦ some (failure, some (record m { ble = ble }), es)
  ]

-- nativeCancelBLENetwork
abbrev pub native_cancel_ble_network : Thread → Option JniManager → Option (Error × List JniEvent)
native_cancel_ble_network t none = some (bad_parameter, [])
native_cancel_ble_network t (some m) = jni_cancel t (some m.ble)

-- nativeCloseBLENetwork
unfoldable pub native_close_ble_network :
    Thread → Option JniManager → Option (Error × Option JniManager × List JniEvent)
native_close_ble_network t none = some (ok, none, [])
native_close_ble_network t (some m) = do
  (result, ble, es) ← jni_ble_delete t (some m.ble)
  ble ← ble
  some (result, some (record m { ble = ble }), es)

-- nativeEnableDataDump; a string is `none` where GetStringUTFChars gives NULL.
abbrev pub native_enable_data_dump :
    (directory opens : Bool)
    → (log_dir_string name_string : ℕ) → (log_dir name : Option (List ℕ)) → Option NetworkManager
    → Error × Option NetworkManager × List DumpEvent × List StringEvent
native_enable_data_dump directory opens log_dir_string name_string log_dir name m =
    let (result, m', es) = enable_data_dump directory opens log_dir name m in
    (
      result,
      m',
      es,
      string_taken log_dir_string
          ∷ string_taken name_string
          ∷ string_released log_dir_string
          ∷ string_released name_string
          ∷ [],
    )

-- nativeDumpData, of an address that is 0 for NULL.
abbrev pub native_dump_data :
    (tag native_data data_size dump_size : ℕ) → Option NetworkManager → Error × List DumpEvent
native_dump_data tag native_data data_size dump_size m =
    dump_data tag (if native_data == 0 then none else some native_data) data_size dump_size m

-- nativeCloseWifiNetwork
abbrev pub native_close_wifi_network : Option NetworkManager → Deleted
native_close_wifi_network = close_wifi_network

module _ {ℓ} {R : Type ℓ} (refuse : Error → R) (call : Function → NetworkManager → R) where
  -- nativeUnlock
  abbrev pub native_unlock : Option NetworkManager → R
  native_unlock = manager_unlock refuse call

  -- nativeSetSendBufferSize and nativeSetRecvBufferSize
  abbrev pub native_set_send_buffer_size : Option NetworkManager → R
  native_set_send_buffer_size = manager_set_send_buffer_size refuse call

  abbrev pub native_set_recv_buffer_size : Option NetworkManager → R
  native_set_recv_buffer_size = manager_set_recv_buffer_size refuse call

  -- nativeSetSendClassSelector and nativeSetRecvClassSelector
  abbrev pub native_set_send_class_selector : Option NetworkManager → R
  native_set_send_class_selector = manager_set_send_class_selector refuse call

  abbrev pub native_set_recv_class_selector : Option NetworkManager → R
  native_set_recv_class_selector = manager_set_recv_class_selector refuse call
