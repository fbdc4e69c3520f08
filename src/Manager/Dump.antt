-- ===== src/Manager/Dump.antt =====
-- ARNETWORKAL_Manager_New, _Delete, _EnableDataDump and _DumpData of Sources/ARNETWORKAL_Manager.c, and
-- the dump file over the life of a manager.
pub mod Life
use lib_arnetwork_al.Prelude.{
  Bool, List, Option, [], false, if◌then◌else◌, none, not, some, take, ℕ, ◌++◌, ◌∷◌,
}
use lib_arnetwork_al.Errors.{Error, alloc, bad_parameter, ok}
use lib_arnetwork_al.Manager.{NetworkManager, Operations}

-- What these functions do outside of the manager: rotate the dump files of a path, open one, write
-- `size` bytes of which `size_dump` are shown, flush it, have it written to the disk, close it, and
-- free the manager.
pub data DumpEvent : Type 0 where
  rotated : List ℕ → (count : ℕ) → DumpEvent
  opened : List ℕ → (success : Bool) → DumpEvent
  written : (tag address size size_dump : ℕ) → DumpEvent
  flushed synced closed_dump : DumpEvent
  freed_manager : DumpEvent

-- ARNETWORKAL_MANAGER_DEFAULT_ID_MAX
abbrev pub manager_default_id_max : ℕ
manager_default_id_max = 256

-- The table that calloc leaves.
abbrev pub no_operations : Operations
no_operations = record {
  push_frame_op = none;
  pop_frame_op = none;
  send_op = none;
  receive_op = none;
  unlock_op = none;
  get_bandwidth_op = none;
  bandwidth_thread_op = none;
  set_on_disconnect_callback_op = none;
  set_send_buffer_size_op = none;
  set_recv_buffer_size_op = none;
  get_send_buffer_size_op = none;
  get_recv_buffer_size_op = none;
  set_send_class_selector_op = none;
  set_recv_class_selector_op = none;
  get_send_class_selector_op = none;
  get_recv_class_selector_op = none;
}

-- The manager that New makes.
abbrev pub new_manager : NetworkManager
new_manager = record {
  objects = record { sender = none; receiver = none; dump_file = false };
  operations = no_operations;
  max_ids = manager_default_id_max;
  max_buffer_size = 0;
}

-- ARNETWORKAL_Manager_New: the manager, and what is written through `error`, if that is not NULL.
-- `allocated` is whether calloc gives a block.
abbrev pub manager_new :
    (allocated : Bool) → (error_given : Bool) → Option NetworkManager × Option Error
manager_new allocated error_given = (
  if allocated then some new_manager else none,
  if error_given then some (if allocated then ok else alloc) else none,
)

-- ARNETWORKAL_Manager_Delete, of a pointer that is NULL or points to a manager or to NULL.
abbrev pub manager_delete :
    Option (Option NetworkManager) → Option (Option NetworkManager) × List DumpEvent
manager_delete none = (none, [])
manager_delete (some none) = (some none, [])
manager_delete (some (some m)) = (
  some none,
  (if m.objects.dump_file then flushed ∷ synced ∷ closed_dump ∷ [] else []) ++ (freed_manager ∷ []),
)

-- "/arnetworkal-" and ".log"
abbrev pub log_prefix : List ℕ
log_prefix = 47 ∷ 97 ∷ 114 ∷ 110 ∷ 101 ∷ 116 ∷ 119 ∷ 111 ∷ 114 ∷ 107 ∷ 97 ∷ 108 ∷ 45 ∷ []

abbrev pub log_suffix : List ℕ
log_suffix = 46 ∷ 108 ∷ 111 ∷ 103 ∷ []

-- What snprintf leaves in 512 bytes, less the end.
abbrev pub log_path : List ℕ → List ℕ → List ℕ
log_path log_dir name = take 511 (log_dir ++ (log_prefix ++ (name ++ log_suffix)))

-- ARNETWORKAL_Manager_EnableDataDump; `directory` is whether stat succeeds, and `opens` whether fopen
-- does.
abbrev pub enable_data_dump :
    (directory opens : Bool)
    → (log_dir name : Option (List ℕ)) → Option NetworkManager
    → Error × Option NetworkManager × List DumpEvent
enable_data_dump directory opens log_dir name none = (bad_parameter, none, [])
enable_data_dump directory opens none name (some m) = (bad_parameter, some m, [])
enable_data_dump directory opens (some log_dir) none (some m) = (bad_parameter, some m, [])
enable_data_dump directory opens (some log_dir) (some name) (some m) =
    if m.objects.dump_file
    then (bad_parameter, some m, [])
    else if not directory
    then (bad_parameter, some m, [])
    else (
      ok,
      some (record m { objects = record (m.objects) { dump_file = opens } }),
      rotated (log_path log_dir name) 4 ∷ opened (log_path log_dir name) opens ∷ [],
    )

-- ARNETWORKAL_Manager_DumpData; `address` is `none` for NULL.
abbrev pub dump_data :
    (tag : ℕ)
    → (address : Option ℕ) → (size size_dump : ℕ) → Option NetworkManager
    → Error × List DumpEvent
dump_data tag address size size_dump none = (bad_parameter, [])
dump_data tag none size size_dump (some m) = (bad_parameter, [])
dump_data tag (some address) size size_dump (some m) =
    if m.objects.dump_file
    then (ok, written tag address size size_dump ∷ [])
    else (bad_parameter, [])
