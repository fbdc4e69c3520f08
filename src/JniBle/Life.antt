-- ===== src/JniBle/Life.antt =====
-- The life of one object of JNI/c/ARNETWORKAL_JNIBLENetwork.c: New, any calls between, and Delete.
pub mod Balance
pub mod Steps
pub mod Stored
pub mod Carry
pub mod Whole
use lib_arnetwork_al.Prelude.{
  ◌>>=◌, List, Option, [], none, some, sub_word, true, u32_mod, ℕ, ◌%◌, ◌++◌, ◌>>=◌, ◌∷◌, ◌≡◌,
}
use lib_arnetwork_al.Platform.{Memory}
use lib_arnetwork_al.Errors.{Error}
use lib_arnetwork_al.Frame.{Frame, Return, default, header_size}
use lib_arnetwork_al.Wifi.Lifecycle.{Allocation}
use lib_arnetwork_al.JniBle.{BleManager, JniEvent, Thread, has_env}
use lib_arnetwork_al.JniBle.Object.{ObjectReplies}
use lib_arnetwork_al.JniBle.Frames.{DataPop, PopReplies, jni_pop_frame, jni_push_frame, region}
use lib_arnetwork_al.JniBle.Calls.{
  jni_ble_delete, jni_ble_new, jni_cancel, jni_connect, jni_receive, jni_set_on_disconnect_callback,
  jni_unlock, native_on_disconnect,
}

-- The calls between New and Delete, each with its thread, its arguments and what Java returns.
pub data BleCall : Type 0 where
  ble_push_call : Thread → Memory → (array : Option ℕ) → (reply : Return) → Frame → BleCall
  ble_pop_call : Thread → PopReplies → Frame → BleCall
  ble_receive_call : Thread → (reply : Return) → BleCall
  ble_unlock_call : Thread → BleCall
  ble_callback_call : Thread → (callback : Option ℕ) → (custom_data : ℕ) → BleCall
  ble_connect_call : Thread → (device notification_ids : ℕ) → (reply : Error) → BleCall
  ble_cancel_call : Thread → BleCall
  ble_disconnect_call : BleCall

-- What a call does, its result aside.
unfoldable pub ble_call : BleCall → BleManager → Option (BleManager × List JniEvent)
ble_call (ble_push_call t mem array reply f) m =
    jni_push_frame t mem array reply m f >>= λ (result, es). some (m, es)
ble_call (ble_pop_call t env f) m =
    jni_pop_frame t env m f >>= λ (result, m', f', es). some (m', es)
ble_call (ble_receive_call t reply) m = jni_receive t reply m >>= λ (result, es). some (m, es)
ble_call (ble_unlock_call t) m = jni_unlock t m >>= λ (result, es). some (m, es)
ble_call (ble_callback_call t callback custom_data) m =
    jni_set_on_disconnect_callback t callback custom_data m >>= λ (result, m', es). some (m', es)
ble_call (ble_connect_call t device notification_ids reply) m =
    jni_connect t device notification_ids reply m >>= λ (result, es). some (m, es)
ble_call (ble_cancel_call t) m = jni_cancel t (some m) >>= λ (result, es). some (m, es)
ble_call ble_disconnect_call m = some (m, native_on_disconnect m.ble_object)

unfoldable pub ble_run : List BleCall → BleManager → Option (BleManager × List JniEvent)
ble_run [] m = some (m, [])
ble_run (c ∷ cs) m = do (m, es) ← ble_call c m; (m, es') ← ble_run cs m; some (m, es ++ es')

-- New, the calls, and Delete; where New returns an error there is nothing else.
unfoldable pub ble_life :
    Thread
    → Thread
    → ObjectReplies
    → List BleCall
    → BleManager
    → Option (Error × Option BleManager × List JniEvent)
ble_life t t' env cs m = do
  (result, m', es) ← jni_ble_new t env (some m)
  m' ← m'
  (m', es') ← ble_run cs m'
  (result', m', es'') ← jni_ble_delete t' (some m')
  some (result', m', es ++ (es' ++ es''))

-- What the array of a DataPop needs: a global reference to it, and, where the frame is to be read,
-- elements that have a head.
abbrev pub IsReadable : Option ℕ → Return → Option Allocation → Type 0
IsReadable none result elements = ⊥
IsReadable (some g) default elements =
    (address type seq : ℕ) × (payload : List ℕ) × (elements
      ≡ some (record { address = address; contents = type ∷ seq ∷ payload }))
IsReadable (some g) result elements = Unit {0}

-- What a call needs from its thread, the virtual machine and its arguments. The other calls need
-- nothing.
abbrev pub IsServed : BleCall → Type 0
IsServed (ble_push_call t mem array reply f) =
    (a : ℕ) × (bytes : List ℕ) × (has_env t ≡ true)
    × (array ≡ some a)
    × (region mem f (sub_word f.size header_size % u32_mod) ≡ some bytes)
IsServed (ble_pop_call t env f) =
    (has_env t ≡ true)
    × ((d : DataPop) (array : ℕ)
        → env.data_pop ≡ some d
        → d.frame_data ≡ some array
        → IsReadable env.global_array d.result env.elements)
IsServed c = Unit {0}

abbrev pub AllServed : List BleCall → Type 0
AllServed [] = Unit {0}
AllServed (c ∷ cs) = IsServed c × AllServed cs
