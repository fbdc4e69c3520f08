-- ===== src/Tests/ManagerRuns.antt =====
-- The manager: its generic functions, its dump file, its errors, the mux network's life, and the
-- bandwidth thread with Delete.
use lib_arnetwork_al.Prelude.{
  arith, List, [], false, length, none, pos, refl, replicate, some, true, ℕ, ◌++◌, ◌∷◌, ◌≡◌, ◌≤◌,
}
use lib_arnetwork_al.Platform.{etimedout}
use lib_arnetwork_al.Errors.{Error, bad_parameter, manager_operation_not_supported, ok, wifi}
use lib_arnetwork_al.Errors.Text.{
  error_code, error_of_code, error_of_text, to_string, to_string-error_code,
}
use lib_arnetwork_al.Manager.{
  Function, NetworkManager, Operation, bandwidth_thread_function, ble_network, function_of,
  jni_ble_network, mux_network, wifi_network, wifi_operations,
}
use lib_arnetwork_al.Manager.Generic.{manager_bandwidth_thread}
use lib_arnetwork_al.Manager.Ble.{ble_operations, manager_ble_id_max, manager_ble_max_buffer_size}
use lib_arnetwork_al.Manager.Dump.{DumpEvent, new_manager, no_operations}
use lib_arnetwork_al.Manager.Dump.Life.{
  DumpCall, dump_call, dump_life, dump_life-follows, enable_call, follow, no_file, no_manager,
}
use lib_arnetwork_al.Manager.Reach.{generic-answers}
use lib_arnetwork_al.Manager.Reach.Choices.{
  Generic, History, ask, ble_chosen, chose_ble, chose_mux, latest, made, mux_chosen, named,
  pointer_of, reply_of, set_send_buffer_size, set_send_class_selector,
}
use lib_arnetwork_al.Mux.{MuxEvent, MuxObject, got_buffer}
use lib_arnetwork_al.Mux.Buffers.{MuxCall, holds, pop_call, receive_call, releases}
use lib_arnetwork_al.Mux.Network.{
  MuxManager, allocated_mux_object, channel_opened, freed_mux_object, init_mux_manager,
  mux_operations, mux_referenced, mux_unreferenced, queue_allocated, with_mux,
}
use lib_arnetwork_al.Mux.Network.Life.{mux_life, mux_life-releases}
use lib_arnetwork_al.Wifi.Bandwidth.{wait_failed, woken}
use lib_arnetwork_al.Wifi.Closing.{
  Closing, Turn, bandwidth_step, bandwidth_turn, closing_run, closing_start, delete_step,
  delete_turn, thread_started,
}
use lib_arnetwork_al.Wifi.Closing.Finish.{IsClosed, closing-ends, Block, fair}
use lib_arnetwork_al.Tests.Data.{platform, first_bytes, no_frame}

-- Each network's answer for an operation, and each error's, by a number.
abbrev answer : Function → NetworkManager → ℕ
answer f m = elim f [
  | function_of n op ↦ elim n [
    | wifi_network ↦ 1
    | mux_network ↦ 2
    | ble_network ↦ 3
    | jni_ble_network ↦ 4
  ]
]

abbrev refusal : Error → ℕ
refusal e = elim e [ bad_parameter ↦ 10 | manager_operation_not_supported ↦ 11 | _ ↦ 12 ]

abbrev new_mux_manager : MuxManager
new_mux_manager = record { network = new_manager; mux_object = none }

-- The BLE network behind the mux network.
abbrev twice_chosen : NetworkManager
twice_chosen = record (with_mux new_manager) {
  operations = ble_operations (mux_operations no_operations);
  max_ids = manager_ble_id_max;
  max_buffer_size = manager_ble_max_buffer_size;
}

twice_chosen-History : History (chose_ble ∷ chose_mux ∷ []) twice_chosen
unfolding init_mux_manager
twice_chosen-History =
    ble_chosen (chose_mux ∷ []) (with_mux new_manager) twice_chosen true ok ok _ refl (
      mux_chosen [] new_manager (with_mux new_manager) (some 1) true (some 2) none _ _ refl refl
        made)

generic-answers_example :
    ((g : Generic)
      → ask refusal answer g (some twice_chosen)
        ≡ reply_of refusal answer twice_chosen (latest (named g) (chose_ble ∷ chose_mux ∷ [])))
    × ((g : Generic) → ask refusal answer g none ≡ 10)
    × (manager_bandwidth_thread 0 answer (some twice_chosen)
        ≡ reply_of
            (λ e. 0)
            answer
            twice_chosen
            (latest bandwidth_thread_function (chose_ble ∷ chose_mux ∷ [])))
    × ((op : Operation)
        → pointer_of op twice_chosen.operations ≡ latest op (chose_ble ∷ chose_mux ∷ []))
generic-answers_example =
    generic-answers refusal 0 answer (chose_ble ∷ chose_mux ∷ []) twice_chosen twice_chosen-History

-- The buffer sizes are still the mux network's, and the class selectors are not supported.
ble_after_mux :
    (ask refusal answer set_send_buffer_size (some twice_chosen) ≡ 2)
    × (ask refusal answer set_send_class_selector (some twice_chosen) ≡ 11)
ble_after_mux = (refl, refl)

-- The class selectors of a manager that the WiFi network had before are still the WiFi network's.
mux_after_wifi :
    ask refusal answer set_send_class_selector
      (some (with_mux (record new_manager { operations = wifi_operations })))
    ≡ 1
mux_after_wifi = refl

-- A directory that is missing, a file that cannot be opened, a file, data, and a second file.
abbrev dump_calls : List DumpCall
dump_calls =
    dump_call 1 (some 500) 9 9
    ∷ enable_call false true (some (47 ∷ [])) (some (97 ∷ []))
    ∷ enable_call true false (some (47 ∷ [])) (some (97 ∷ []))
    ∷ enable_call true true (some (47 ∷ [])) (some (97 ∷ []))
    ∷ dump_call 1 (some 500) 9 9
    ∷ enable_call true true (some (47 ∷ [])) (some (98 ∷ []))
    ∷ []

dump_life-follows_example :
    (es : List DumpEvent) × (dump_life dump_calls ≡ some (some none, es))
    × (follow es no_file ≡ some no_manager)
dump_life-follows_example = dump_life-follows dump_calls

to_string-error_code_example :
    (error_of_code (error_code wifi) ≡ some wifi)
    × (error_of_text (to_string (error_code wifi)) ≡ some wifi)
    × (error_of_text "Unknown value" ≡ none)
to_string-error_code_example = to_string-error_code wifi

-- One buffer that is popped, and one that Close finds.
abbrev life_calls : List MuxCall
life_calls =
    receive_call (got_buffer (record { address = 9000; bytes = first_bytes }))
    ∷ pop_call (pos 0) no_frame
    ∷ receive_call (got_buffer (record { address = 9100; bytes = first_bytes }))
    ∷ []

mux_life-releases_example :
    (es : List MuxEvent) × (o : MuxObject) × (mux_life platform 1
        (some 2)
        7
        70
        life_calls
        new_mux_manager
      ≡ some (
        record { network = with_mux new_manager; mux_object = none },
        allocated_mux_object
            ∷ mux_referenced 1
            ∷ channel_opened 1
            ∷ queue_allocated 1
            ∷ mux_unreferenced 1
            ∷ freed_mux_object
            ∷ [],
        es,
        o,
      ))
    × (length (holds o) ≤ 1)
    × (releases es ++ holds o
        ≡ record { address = 9000; bytes = first_bytes }
          ∷ record { address = 9100; bytes = first_bytes }
          ∷ [])
mux_life-releases_example = mux_life-releases platform 1 (some 2) 7 70 life_calls new_mux_manager

-- A round, the signal, the end of the loop, and both posts.
abbrev some_turns : List Turn
some_turns =
    bandwidth_turn (wait_failed etimedout)
    ∷ bandwidth_turn woken
    ∷ delete_turn
    ∷ bandwidth_turn woken
    ∷ delete_turn
    ∷ bandwidth_turn woken
    ∷ []

-- A block in which a timeout of the wait comes between.
abbrev some_block : Block
some_block = record {
  before = [];
  between = bandwidth_turn (wait_failed etimedout) ∷ [];
  after = delete_turn ∷ [];
}

closing-ends_example :
    (s s' : Closing) × (closing_run some_turns thread_started ≡ some s)
    × (closing_run (fair (replicate 11 some_block)) s ≡ some s')
    × IsClosed s'
closing-ends_example = closing-ends some_turns (replicate 11 some_block) (omega arith)

-- Delete comes first and frees the sender, whose semaphore the bandwidth thread then waits on.
delete_first :
    closing_run (delete_turn ∷ delete_turn ∷ delete_turn ∷ bandwidth_turn woken ∷ []) closing_start
    ≡ none
unfolding bandwidth_step delete_step
delete_first = refl
