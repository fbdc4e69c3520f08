-- ===== src/Tests/JniRuns.antt =====
-- The BLE network of Java: lives, and a frame carried.
use mathlib.Core.Path.{subst}
use lib_arnetwork_al.Prelude.{List, [], ap, arith, false, none, pos, refl, some, true, ℕ, ◌∷◌, ◌≡◌}
use lib_arnetwork_al.Platform.{block, read_bytes}
use lib_arnetwork_al.Errors.{ble_not_connected, ok}
use lib_arnetwork_al.Frame.{bad_frame, buffer_empty, default, reset_frame}
use lib_arnetwork_al.Manager.Dump.{new_manager}
use lib_arnetwork_al.JniBle.{
  BleManager, get_data_method, get_id_method, get_result_method, JniBleObject, JniEvent, Thread,
  called, deleted_local, jni_edetached, jni_ok, new_local, pop_frame_method, push_frame_method,
  within,
}
use lib_arnetwork_al.JniBle.Answers.{Answers, jni_pop_frame-Answers}
use lib_arnetwork_al.JniBle.Frames.{DataPop, PopReplies, jni_pop_frame, jni_push_frame}
use lib_arnetwork_al.JniBle.Ledger.{ledger, replay}
use lib_arnetwork_al.JniBle.Life.{
  AllServed, BleCall, IsReadable, ble_callback_call, ble_connect_call, ble_disconnect_call,
  ble_life, ble_pop_call, ble_push_call,
}
use lib_arnetwork_al.JniBle.Life.Whole.{ble_life-balances}
use lib_arnetwork_al.JniBle.Transfer.{jni_push_frame-bounds, jni_transfer, push_outcome}
use lib_arnetwork_al.JniManager.{JniManager}
use lib_arnetwork_al.JniManager.Life.{native_ble_life, native_ble_life-balances}
use lib_arnetwork_al.Tests.Data.{caller, first_frame, no_frame}

-- A thread of Java, and one that has to be attached.
abbrev java_thread : Thread
java_thread = record { virtual_machine = true; get_env = jni_ok; attaches = false }

abbrev other_thread : Thread
other_thread = record { virtual_machine = true; get_env = jni_edetached; attaches = true }

abbrev network_object : JniBleObject
network_object = record {
  java_network = some 11;
  manager = 4096;
  current_frame_byte_array = none;
  current_frame = none;
  on_disconnect = none;
  on_disconnect_custom_data = 0;
}

abbrev ble_manager : BleManager
ble_manager = record { address = 4096; ble_object = none }

-- A DataPop with an array of type 2, sequence number 1 and the data `7 8`.
abbrev popping : ℕ → PopReplies
popping g = record {
  data_pop =
      some (record { reference = 20; result = default; frame_id = pos 10; frame_data = some 21 });
  global_array = some g;
  elements = some (record { address = 9000; contents = 2 ∷ 1 ∷ 7 ∷ 8 ∷ [] });
}

popping-IsReadable :
    (g : ℕ) (d : DataPop) (array : ℕ)
    → (popping g).data_pop ≡ some d
    → d.frame_data ≡ some array
    → IsReadable (some g) d.result (popping g).elements
popping-IsReadable g d array e h =
    subst (λ r. IsReadable (some g) r (popping g).elements)
      (ap (λ x. elim x [ none ↦ default | some y ↦ y.result ]) e) (9000, 2, 1, 7 ∷ 8 ∷ [], refl)

-- Two frames popped, of which the second takes the first's place, and one pushed.
abbrev some_calls : List BleCall
some_calls =
    ble_connect_call java_thread 5 6 ok
    ∷ ble_callback_call other_thread (some 7) 70
    ∷ ble_push_call other_thread caller (some 30) default first_frame
    ∷ ble_pop_call other_thread (popping 40) no_frame
    ∷ ble_pop_call other_thread (popping 41) no_frame
    ∷ ble_disconnect_call
    ∷ []

some_calls-AllServed : AllServed some_calls
unfolding read_bytes
some_calls-AllServed = (
  tt,
  (
    tt,
    (
      (30, 7 ∷ 8 ∷ [], refl, refl, refl),
      ((refl, popping-IsReadable 40), ((refl, popping-IsReadable 41), (tt, tt))),
    ),
  ),
)

ble_life-balances_example :
    (es : List JniEvent) × (ble_life java_thread other_thread
        (record {
          block = some network_object;
          class_found = some 8;
          new_object = some 9;
          global_network = some 10;
        })
        some_calls
        ble_manager
      ≡ some (ok, some ble_manager, es))
    × (replay es (ledger false [] [] [] 0) ≡ some (ledger false [] [] [] 0))
ble_life-balances_example =
    ble_life-balances java_thread other_thread network_object 8 9 10 some_calls ble_manager refl
      refl some_calls-AllServed

jni_push_frame-bounds_example :
    jni_push_frame other_thread caller
      (some 30)
      default
      (record { address = 4096; ble_object = some network_object })
      first_frame
    ≡ some (push_outcome other_thread 30 11 default first_frame (7 ∷ 8 ∷ []))
unfolding read_bytes
jni_push_frame-bounds_example =
    jni_push_frame-bounds other_thread caller (some 30) 11 default 4096 network_object first_frame
      (7 ∷ 8 ∷ []) refl refl (omega arith) refl refl

jni_transfer_example :
    (jni_push_frame other_thread caller
        (some 30)
        default
        (record { address = 4096; ble_object = some network_object })
        first_frame
      ≡ some (
        default,
        within other_thread (
            new_local 30
            ∷ called (push_frame_method 2 10 1 2 (7 ∷ 8 ∷ [])) 11
            ∷ deleted_local 30
            ∷ []),
      ))
    × (after : JniBleObject) × (es : List JniEvent) × (jni_pop_frame java_thread
          (popping 40)
          (record { address = 4096; ble_object = some network_object })
          no_frame
        ≡ some (
          default,
          record { address = 4096; ble_object = some after },
          record first_frame { data_ptr = 9002 },
          es,
        ))
    × (after.current_frame ≡ some (record { address = 9000; contents = 2 ∷ 1 ∷ 7 ∷ 8 ∷ [] }))
    × (read_bytes (block 9000 (2 ∷ 1 ∷ 7 ∷ 8 ∷ [])) 9002 2 ≡ some (7 ∷ 8 ∷ []))
unfolding read_bytes
jni_transfer_example =
    jni_transfer other_thread java_thread caller 30 11 default 4096 network_object network_object
      first_frame no_frame (7 ∷ 8 ∷ []) 20 21 40 9000 11 4096 refl refl refl refl (omega arith)
      (omega arith) refl refl

abbrev jni_manager : JniManager
jni_manager = record { network = new_manager; ble = ble_manager }

-- The connection fails.
native_ble_life-balances_example :
    (es : List JniEvent) × (native_ble_life java_thread java_thread
        (record {
          block = some network_object;
          class_found = some 8;
          new_object = some 9;
          global_network = some 10;
        })
        5
        6
        ble_not_connected
        jni_manager
      ≡ some (ble_not_connected, ok, some jni_manager, es))
    × (replay es (ledger false [] [] [] 0) ≡ some (ledger false [] [] [] 0))
native_ble_life-balances_example =
    native_ble_life-balances java_thread java_thread network_object 8 9 10 5 6 ble_not_connected
      jni_manager refl refl

abbrev live_manager : BleManager
live_manager = record { address = 4096; ble_object = some network_object }

-- A DataPop of Java's empty buffer, without an array.
abbrev empty_replies : PopReplies
empty_replies = record {
  data_pop =
      some (record { reference = 20; result = buffer_empty; frame_id = pos 0; frame_data = none });
  global_array = none;
  elements = none;
}

jni_pop_frame-Answers_example :
    Answers java_thread
      (popping 40)
      4096
      network_object
      first_frame
      (default, some (record { address = 9000; contents = 2 ∷ 1 ∷ 7 ∷ 8 ∷ [] }))
jni_pop_frame-Answers_example =
    jni_pop_frame-Answers java_thread (popping 40) 4096 11 network_object first_frame refl refl
      (popping-IsReadable 40)

empty_popped :
    jni_pop_frame java_thread empty_replies live_manager first_frame
    ≡ some (
      bad_frame,
      live_manager,
      reset_frame first_frame,
      called pop_frame_method 11
          ∷ new_local 20
          ∷ called get_result_method 20
          ∷ called get_id_method 20
          ∷ called get_data_method 20
          ∷ deleted_local 20
          ∷ [],
    )
unfolding jni_pop_frame
empty_popped = refl
