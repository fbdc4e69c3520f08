-- ===== src/JniBle/Frames.antt =====
-- ARNETWORKAL_JNIBLENetwork_PushFrame and _PopFrame of JNI/c/ARNETWORKAL_JNIBLENetwork.c.
use lib_arnetwork_al.Prelude.{
  ◌>>=◌, List, Option, [], add_word, if◌then◌else◌, leb, length, ltb, none, not, some, sub_word,
  u32_mod, ℕ, ℤ, ◌%◌, ◌++◌, ◌+◌, ◌^◌, ◌∷◌,
}
use lib_arnetwork_al.Platform.{Memory, block, read_bytes}
use lib_arnetwork_al.Frame.{Frame, Return, bad_frame, default, header_size, reset_frame}
use lib_arnetwork_al.Wifi.Lifecycle.{Allocation, to_u32}
use lib_arnetwork_al.JniBle.{
  BleManager, JniEvent, Thread, ble_header_size, called, deleted_local, get_data_method,
  get_id_method, get_result_method, has_env, media_mtu, new_local, pop_frame_method,
  push_frame_method, within,
}
use lib_arnetwork_al.JniBle.Object.{object_store_current_frame}

-- The bytes that SetByteArrayRegion copies. An array of a negative size is NULL, and its region
-- undefined.
abbrev pub region : Memory → Frame → (size : ℕ) → Option (List ℕ)
region mem f size = if leb (2 ^ 31) size then none else read_bytes mem f.data_ptr size

-- ARNETWORKAL_JNIBLENetwork_PushFrame; `array` is what NewByteArray returns, and `reply` what the Java
-- method does. Without an environment the clean-up calls a function of NULL.
unfoldable pub jni_push_frame :
    Thread
    → Memory
    → (array : Option ℕ) → (reply : Return) → BleManager
    → Frame
    → Option (Return × List JniEvent)
jni_push_frame t mem array reply m f = do
  o ← m.ble_object
  if not (has_env t) then none else do
    let data_size = sub_word f.size header_size % u32_mod
    a ← array
    bytes ← region mem f data_size
    if ltb media_mtu (add_word (sub_word f.size header_size) ble_header_size)
        then some (bad_frame, within t (new_local a ∷ deleted_local a ∷ []))
        else do
          network ← o.java_network
          some (
            reply,
            within t (
                new_local a
                ∷ called (push_frame_method f.type f.id f.seq data_size bytes) network
                ∷ deleted_local a
                ∷ []),
          )

-- A DataPop of Java: a reference to it, and what its methods return.
pub record DataPop : Type 0 where
  pub reference : ℕ
  pub result : Return
  pub frame_id : ℤ
  pub frame_data : Option ℕ

-- What the calls of PopFrame return: popFrame, and for the array in it NewGlobalRef and
-- GetByteArrayElements.
pub record PopReplies : Type 0 where
  pub data_pop : Option DataPop
  pub global_array : Option ℕ
  pub elements : Option Allocation

abbrev pub data_event : Option ℕ → List JniEvent
data_event none = []
data_event (some array) = new_local array ∷ []

-- The three methods of a DataPop, and the end of the reference to it.
abbrev pub data_pop_events : DataPop → List JniEvent
data_pop_events d =
    new_local d.reference
    ∷ called get_result_method d.reference
    ∷ called get_id_method d.reference
    ∷ called get_data_method d.reference
    ∷ (data_event d.frame_data ++ (deleted_local d.reference ∷ []))

-- The fields of the frame, out of the elements that the object holds.
abbrev pub read_elements : (frame_id : ℤ) → Option Allocation → Frame → Option Frame
read_elements frame_id none f = none
read_elements frame_id (some b) f = do
  let memory = block b.address b.contents
  type ← memory b.address
  seq ← memory (b.address + 1)
  some (record f {
    type = type;
    id = to_u32 frame_id % 256;
    seq = seq;
    size = add_word (sub_word (length b.contents) 2) header_size % u32_mod;
    data_ptr = b.address + 2;
  })

-- `Get the frame from the buffer`, or `reset frame`
unfoldable pub popped_frame :
    Return → (frame_id : ℤ) → (elements : Option Allocation) → Frame → Option Frame
popped_frame result frame_id elements f = elim result [
  | default ↦ read_elements frame_id elements f
  | _ ↦ some (reset_frame f)
]

-- ARNETWORKAL_JNIBLENetwork_PopFrame. Without an environment the clean-up calls a function of NULL.
unfoldable pub jni_pop_frame :
    Thread → PopReplies → BleManager → Frame → Option (Return × BleManager × Frame × List JniEvent)
jni_pop_frame t env m f = do
  o ← m.ble_object
  if not (has_env t) then none else do
    network ← o.java_network
    elim env.data_pop [
      | none ↦ some (bad_frame, m, reset_frame f, within t (called pop_frame_method network ∷ []))
      | some d ↦ elim d.frame_data [
        | none ↦ some (
          bad_frame,
          m,
          reset_frame f,
          within t (called pop_frame_method network ∷ data_pop_events d),
        )
        | some array ↦ do
          (o, es) ← object_store_current_frame array env.global_array env.elements o
          f ← popped_frame d.result d.frame_id o.current_frame f
          some (
            d.result,
            record m { ble_object = some o },
            f,
            within t (
                called pop_frame_method network
                ∷ (data_pop_events d ++ (es ++ (deleted_local array ∷ [])))),
          )
      ]
    ]
