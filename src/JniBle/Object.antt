-- ===== src/JniBle/Object.antt =====
-- ARNETWORKAL_JNIBLENetwork_ObjectNew, _ObjectDelete, _ObjectStoreCurrentFrame and
-- _ObjectDeleteCurrentFrame of JNI/c/ARNETWORKAL_JNIBLENetwork.c.
use lib_arnetwork_al.Prelude.{List, Option, [], none, some, ℕ, ◌++◌, ◌>>=◌, ◌∷◌}
use lib_arnetwork_al.Errors.{Error, alloc, ok}
use lib_arnetwork_al.Wifi.Lifecycle.{Allocation}
use lib_arnetwork_al.JniBle.{
  JniBleObject, JniEvent, allocated_object, called, deleted_global, deleted_local,
  disconnect_method, freed_object_block, got_elements, new_global, new_local, released_elements,
}

abbrev pub release_elements : (array : ℕ) → Option Allocation → List JniEvent
release_elements array none = []
release_elements array (some b) = released_elements array b.address ∷ []

-- ARNETWORKAL_JNIBLENetwork_ObjectDeleteCurrentFrame
abbrev pub object_delete_current_frame : JniBleObject → JniBleObject × List JniEvent
object_delete_current_frame o = elim o.current_frame_byte_array [
  | none ↦ (o, [])
  | some array ↦ (
    record o { current_frame = none; current_frame_byte_array = none },
    release_elements array o.current_frame ++ (deleted_global array ∷ []),
  )
]

abbrev pub elements_event : (array : ℕ) → Option Allocation → List JniEvent
elements_event array none = []
elements_event array (some b) = got_elements array b.address ∷ []

-- ARNETWORKAL_JNIBLENetwork_ObjectStoreCurrentFrame of the array `array`; `global` and `elements` are
-- what NewGlobalRef and GetByteArrayElements return. The elements of NULL are undefined.
unfoldable pub object_store_current_frame :
    (array : ℕ)
    → (global : Option ℕ) → (elements : Option Allocation) → JniBleObject
    → Option (JniBleObject × List JniEvent)
object_store_current_frame array global elements o =
    let (o, es) = object_delete_current_frame o in
    elim global [
      | none ↦ none
      | some g ↦ some (
        record o { current_frame_byte_array = some g; current_frame = elements },
        es ++ (new_global array g ∷ elements_event g elements),
      )
    ]

-- ARNETWORKAL_JNIBLENetwork_ObjectDelete. A method of NULL is undefined.
abbrev pub object_delete : Option JniBleObject → Option (List JniEvent)
object_delete none = some []
object_delete (some o) = elim o.java_network [
  | none ↦ none
  | some network ↦ some (
      called disconnect_method network
      ∷ deleted_global network
      ∷ ((object_delete_current_frame (record o { java_network = none })).1
          ++ (freed_object_block ∷ [])))
]

-- What the calls of ObjectNew return: malloc with what the block happens to hold, FindClass,
-- NewObject and NewGlobalRef.
pub record ObjectReplies : Type 0 where
  pub block : Option JniBleObject
  pub class_found : Option ℕ
  pub new_object : Option ℕ
  pub global_network : Option ℕ

abbrev pub global_event : (of : ℕ) → Option ℕ → List JniEvent
global_event of none = []
global_event of (some g) = new_global of g ∷ []

-- ARNETWORKAL_JNIBLENetwork_ObjectNew. The methods of a class that is NULL are undefined; where the
-- Java object cannot be made, ObjectDelete reads what the block happens to hold.
abbrev pub object_new :
    ObjectReplies → (manager : ℕ) → Option (Error × Option JniBleObject × List JniEvent)
object_new env manager = elim env.block [
  | none ↦ some (alloc, none, [])
  | some raw ↦ elim env.class_found [
    | none ↦ none
    | some class ↦ elim env.new_object [
      | none ↦ object_delete (some raw) >>= λ es.
          some (alloc, none, allocated_object ∷ new_local class ∷ deleted_local class ∷ es)
      | some network ↦ some (
        ok,
        some (record {
          java_network = env.global_network;
          manager = manager;
          current_frame_byte_array = none;
          current_frame = none;
          on_disconnect = none;
          on_disconnect_custom_data = 0;
        }),
        allocated_object
            ∷ new_local class
            ∷ new_local network
            ∷ deleted_local class
            ∷ (global_event network env.global_network ++ (deleted_local network ∷ [])),
      )
    ]
  ]
]
