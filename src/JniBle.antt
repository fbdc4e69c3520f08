-- ===== src/JniBle.antt =====
-- The BLE network of JNI/c/ARNETWORKAL_JNIBLENetwork.c, which hands frames to a Java object. The Java
-- virtual machine is seen through what its functions return, and references are known by numbers.
pub mod Object
pub mod Frames
pub mod Calls
pub mod Ledger
pub mod Life
pub mod Transfer
pub mod Answers
use lib_arnetwork_al.Prelude.{
  Bool, List, Option, [], false, if◌then◌else◌, not, take, ℕ, ◌++◌, ◌-◌, ◌∷◌,
}
use lib_arnetwork_al.Wifi.Lifecycle.{Allocation}

-- What GetEnv returns: the first with an environment, the other two with NULL.
pub data EnvResult : Type 0 where
  jni_ok jni_edetached jni_eversion : EnvResult

-- The thread of a call: whether ARNETWORKAL_JNIManager_VM is not NULL, what its GetEnv returns, and
-- whether AttachCurrentThread gives an environment.
pub record Thread : Type 0 where
  pub virtual_machine : Bool
  pub get_env : EnvResult
  pub attaches : Bool

-- The methods of the Java objects, with what is passed to them.
pub data JavaMethod : Type 0 where
  connect_method : (device notification_ids : ℕ) → JavaMethod
  cancel_method disconnect_method : JavaMethod
  push_frame_method : (type id seq size : ℕ) → List ℕ → JavaMethod
  pop_frame_method receive_method unlock_method : JavaMethod
  get_id_method get_data_method get_result_method : JavaMethod

-- What a call does outside of the object: attach and detach the thread, allocate and free an object,
-- take and give back local references, global references (a new one is made of another reference)
-- and the elements of an array, call a method of an object, and call the disconnection callback.
pub data JniEvent : Type 0 where
  attached_thread : (given : Bool) → JniEvent
  detached_thread : JniEvent
  allocated_object freed_object_block : JniEvent
  new_local deleted_local : ℕ → JniEvent
  new_global : (of reference : ℕ) → JniEvent
  deleted_global : ℕ → JniEvent
  got_elements released_elements : (array address : ℕ) → JniEvent
  called : JavaMethod → ℕ → JniEvent
  jni_notified : (callback manager custom_data : ℕ) → JniEvent

-- ARNETWORKAL_JNIBLENETWORK_Object_t. `current_frame` is the address of an array's elements with the
-- bytes that lie there.
pub record JniBleObject : Type 0 where
  pub java_network : Option ℕ
  pub manager : ℕ
  pub current_frame_byte_array : Option ℕ
  pub current_frame : Option Allocation
  pub on_disconnect : Option ℕ
  pub on_disconnect_custom_data : ℕ

-- The manager as these functions see it: its address, and the object that is its sender and its
-- receiver at once.
pub record BleManager : Type 0 where
  pub address : ℕ
  pub ble_object : Option JniBleObject

-- ARNETWORKAL_JNIBLENETWORK_MEDIA_MTU, _HEADER_SIZE and _MAX_BUFFER_SIZE
abbrev pub media_mtu : ℕ
media_mtu = 20

abbrev pub ble_header_size : ℕ
ble_header_size = 2

abbrev pub ble_max_buffer_size : ℕ
ble_max_buffer_size = media_mtu - ble_header_size

-- `getEnvResult`
abbrev pub get_env_result : Thread → EnvResult
get_env_result t = if t.virtual_machine then t.get_env else jni_ok

-- `env != NULL`, behind the attempt to attach the thread
abbrev pub has_env : Thread → Bool
has_env t = elim (get_env_result t) [
  | jni_ok ↦ t.virtual_machine
  | jni_edetached ↦ t.attaches
  | jni_eversion ↦ false
]

-- `if no environment then attach the thread to the virtual machine`
abbrev pub attach : Thread → List JniEvent
attach t = elim (get_env_result t) [ jni_edetached ↦ attached_thread t.attaches ∷ [] | _ ↦ [] ]

-- `if the thread has been attached then detach the thread from the virtual machine`
abbrev pub detach : Thread → List JniEvent
detach t = elim (get_env_result t) [
  | jni_edetached ↦ if has_env t then detached_thread ∷ [] else []
  | _ ↦ []
]

-- What a call does between the two.
abbrev pub within : Thread → List JniEvent → List JniEvent
within t es = attach t ++ (es ++ detach t)
