-- ===== src/JniBle/Calls.antt =====
-- The other functions of JNI/c/ARNETWORKAL_JNIBLENetwork.c: _New, _Delete, _Send, _Receive, _Unlock,
-- _SetOnDisconnectCallback, _Connect and _Cancel, and the method nativeJNIOnDisconect.
use lib_arnetwork_al.Prelude.{List, Option, [], if◌then◌else◌, none, not, some, ℕ, ◌>>=◌, ◌∷◌}
use lib_arnetwork_al.Errors.{Error, bad_parameter, generic_error, ok}
use lib_arnetwork_al.Frame.{Return, default, network_error}
use lib_arnetwork_al.JniBle.{
  BleManager, JniBleObject, JniEvent, Thread, ble_header_size, called, cancel_method,
  connect_method, deleted_local, has_env, jni_notified, media_mtu, new_local, receive_method,
  unlock_method, within,
}
use lib_arnetwork_al.JniBle.Object.{ObjectReplies, object_delete, object_new}

-- ARNETWORKAL_JNIBLENetwork_New
abbrev pub jni_ble_new :
    Thread → ObjectReplies → Option BleManager → Option (Error × Option BleManager × List JniEvent)
jni_ble_new t env none = some (bad_parameter, none, [])
jni_ble_new t env (some m) =
    if not (has_env t) then some (generic_error, some m, within t []) else do
      (result, object, es) ← object_new env m.address
      some (
        result,
        some (elim result [ ok ↦ record m { ble_object = object } | _ ↦ m ]),
        within t es,
      )

-- ARNETWORKAL_JNIBLENetwork_Delete
abbrev pub jni_ble_delete :
    Thread → Option BleManager → Option (Error × Option BleManager × List JniEvent)
jni_ble_delete t none = some (bad_parameter, none, [])
jni_ble_delete t (some m) =
    if not (has_env t) then some (generic_error, some m, within t []) else do
      es ← object_delete m.ble_object
      some (ok, some (record m { ble_object = none }), within t es)

-- ARNETWORKAL_JNIBLENetwork_Send
abbrev pub jni_send : BleManager → Return
jni_send m = default

-- ARNETWORKAL_JNIBLENetwork_Receive; `reply` is what the Java method returns.
abbrev pub jni_receive : Thread → (reply : Return) → BleManager → Option (Return × List JniEvent)
jni_receive t reply m = do
  o ← m.ble_object
  if not (has_env t)
      then some (network_error, within t [])
      else do network ← o.java_network; some (reply, within t (called receive_method network ∷ []))

-- ARNETWORKAL_JNIBLENetwork_Unlock
abbrev pub jni_unlock : Thread → BleManager → Option (Error × List JniEvent)
jni_unlock t m = do
  o ← m.ble_object
  if not (has_env t)
      then some (generic_error, within t [])
      else do network ← o.java_network; some (ok, within t (called unlock_method network ∷ []))

-- ARNETWORKAL_JNIBLENetwork_SetOnDisconnectCallback
abbrev pub jni_set_on_disconnect_callback :
    Thread
    → (callback : Option ℕ) → (custom_data : ℕ) → BleManager
    → Option (Error × BleManager × List JniEvent)
jni_set_on_disconnect_callback t callback custom_data m = do
  o ← m.ble_object
  if not (has_env t)
      then some (generic_error, m, within t [])
      else some (
        ok,
        record m {
          ble_object =
              some (record o { on_disconnect = callback; on_disconnect_custom_data = custom_data });
        },
        within t [],
      )

-- ARNETWORKAL_JNIBLENetwork_Connect; `reply` is what the Java method returns.
abbrev pub jni_connect :
    Thread
    → (device notification_ids : ℕ) → (reply : Error) → BleManager
    → Option (Error × List JniEvent)
jni_connect t device notification_ids reply m = do
  o ← m.ble_object
  if not (has_env t) then some (generic_error, within t []) else do
    network ← o.java_network
    some (reply, within t (called (connect_method device notification_ids) network ∷ []))

-- ARNETWORKAL_JNIBLENetwork_Cancel
abbrev pub jni_cancel : Thread → Option BleManager → Option (Error × List JniEvent)
jni_cancel t none = some (bad_parameter, [])
jni_cancel t (some m) = if not (has_env t) then some (generic_error, within t []) else do
  o ← m.ble_object
  network ← o.java_network
  some (ok, within t (called cancel_method network ∷ []))

-- nativeJNIOnDisconect of the Java class ARNetworkALBLENetwork, on the object that it was made with
abbrev pub native_on_disconnect : Option JniBleObject → List JniEvent
native_on_disconnect none = []
native_on_disconnect (some o) = elim o.on_disconnect [
  | none ↦ []
  | some callback ↦ jni_notified callback o.manager o.on_disconnect_custom_data ∷ []
]

-- nativeGetMediaMTU and nativeGetHeaderSize
abbrev pub native_get_media_mtu : ℕ
native_get_media_mtu = media_mtu

abbrev pub native_get_header_size : ℕ
native_get_header_size = ble_header_size

-- The methods of which nativeJNIInit keeps the identifier.
pub data MethodName : Type 0 where
  connect_name cancel_name disconnect_name push_frame_name pop_frame_name : MethodName
  receive_name unlock_name : MethodName
  data_pop_get_id_name data_pop_get_data_name data_pop_get_result_name : MethodName

-- nativeJNIInit: the identifiers that it keeps, with what FindClass and GetMethodID return. The method
-- of a class that is NULL is undefined.
abbrev pub native_jni_init :
    (network_class data_pop_class : Option ℕ)
    → (get_method_id : ℕ → MethodName → ℕ) → Option ((MethodName → ℕ) × List JniEvent)
native_jni_init network_class data_pop_class get_method_id = do
  network ← network_class
  data_pop ← data_pop_class
  some (
    λ name. elim name [
      | data_pop_get_id_name ↦ get_method_id data_pop data_pop_get_id_name
      | data_pop_get_data_name ↦ get_method_id data_pop data_pop_get_data_name
      | data_pop_get_result_name ↦ get_method_id data_pop data_pop_get_result_name
      | other ↦ get_method_id network other
    ],
    new_local network ∷ new_local data_pop ∷ deleted_local network ∷ deleted_local data_pop ∷ [],
  )
