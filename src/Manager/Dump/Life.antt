-- ===== src/Manager/Dump/Life.antt =====
-- The dump file of a manager from New to Delete.
use lib_arnetwork_al.Prelude.{
  Bool, List, Option, [], false, if◌then◌else◌, monitor, monitor-append, none, refl, some, true, ℕ,
  ◌++◌, ◌∙◌, ◌∷◌, ◌≡◌,
}
use lib_arnetwork_al.Manager.{NetworkManager}
use lib_arnetwork_al.Manager.Dump.{
  DumpEvent, closed_dump, dump_data, enable_data_dump, flushed, freed_manager, manager_delete,
  manager_new, new_manager, opened, rotated, synced, written,
}

pub data DumpCall : Type 0 where
  enable_call : (directory opens : Bool) → (log_dir name : Option (List ℕ)) → DumpCall
  dump_call : (tag : ℕ) → (address : Option ℕ) → (size size_dump : ℕ) → DumpCall

-- A call of EnableDataDump or DumpData, its result aside.
abbrev pub dump_step : DumpCall → NetworkManager → NetworkManager × List DumpEvent
dump_step (enable_call directory opens log_dir name) m =
    let (result, m', es) = enable_data_dump directory opens log_dir name (some m) in
    elim m' [ none ↦ (m, es) | some m'' ↦ (m'', es) ]
dump_step (dump_call tag address size size_dump) m =
    (m, (dump_data tag address size size_dump (some m)).1)

unfoldable pub dump_run : List DumpCall → NetworkManager → NetworkManager × List DumpEvent
dump_run [] m = (m, [])
dump_run (c ∷ cs) m =
    let (m', es) = dump_step c m in let (m'', es') = dump_run cs m' in (m'', es ++ es')

-- New, some calls, and Delete.
unfoldable pub dump_life : List DumpCall → Option (Option (Option NetworkManager) × List DumpEvent)
dump_life cs = elim (manager_new true false).0 [
  | none ↦ none
  | some m ↦
      let (m', es) = dump_run cs m in
      let (left, es') = manager_delete (some (some m')) in some (left, es ++ es')
]

-- The file of a manager: none, open, flushed, on the disk; and no manager.
pub data DumpFile : Type 0 where
  no_file open_file flushed_file synced_file no_manager : DumpFile

-- What each event asks of the file, and what it makes of it.
abbrev pub follow_event : DumpEvent → DumpFile → Option DumpFile
follow_event (rotated path count) no_file = some no_file
follow_event (opened path true) no_file = some open_file
follow_event (opened path false) no_file = some no_file
follow_event (written tag address size size_dump) open_file = some open_file
follow_event flushed open_file = some flushed_file
follow_event synced flushed_file = some synced_file
follow_event closed_dump synced_file = some no_file
follow_event freed_manager no_file = some no_manager
follow_event e file = none

abbrev pub follow : List DumpEvent → DumpFile → Option DumpFile
follow = monitor follow_event

abbrev file_of : NetworkManager → DumpFile
file_of m = if m.objects.dump_file then open_file else no_file

dump_step-follows :
    (c : DumpCall) (m : NetworkManager) (file : Bool)
    → m.objects.dump_file ≡ file
    → follow (dump_step c m).1 (file_of m) ≡ some (file_of (dump_step c m).0)
dump_step-follows (enable_call directory opens none name) m file e = refl
dump_step-follows (enable_call directory opens (some log_dir) none) m file e = refl
dump_step-follows (enable_call directory opens (some log_dir) (some name)) m true e = rw e refl
dump_step-follows (enable_call false opens (some log_dir) (some name)) m false e = rw e refl
dump_step-follows (enable_call true true (some log_dir) (some name)) m false e = rw e refl
dump_step-follows (enable_call true false (some log_dir) (some name)) m false e = rw e refl
dump_step-follows (dump_call tag none size size_dump) m file e = refl
dump_step-follows (dump_call tag (some a) size size_dump) m true e = rw e refl
dump_step-follows (dump_call tag (some a) size size_dump) m false e = rw e refl

dump_run-follows :
    (cs : List DumpCall) (m : NetworkManager)
    → follow (dump_run cs m).1 (file_of m) ≡ some (file_of (dump_run cs m).0)
unfolding dump_run
dump_run-follows [] m = refl
dump_run-follows (c ∷ cs) m =
    let m' = (dump_step c m).0 in
    monitor-append follow_event (dump_step c m).1 (dump_run cs m').1 (file_of m) (file_of m')
      (dump_step-follows c m m.objects.dump_file refl)
    ∙ dump_run-follows cs m'

manager_delete-follows :
    (m : NetworkManager) (file : Bool)
    → m.objects.dump_file ≡ file
    → follow (manager_delete (some (some m))).1 (file_of m) ≡ some no_manager
manager_delete-follows m false e = rw e refl
manager_delete-follows m true e = rw e refl

-- Where New's calloc gives a block, any sequence of calls of EnableDataDump and DumpData on its
-- manager, whichever of their calls of stat and fopen fail, with Delete behind, leaves the pointer NULL,
-- and does to the dump file only what is allowed: none is opened while another is open, data are
-- written to an open one only, an open file is flushed, brought to the disk and closed, once and in
-- this order, and the manager is freed last, with no file open.
pub dump_life-follows :
    (cs : List DumpCall)
    → (es : List DumpEvent) × (dump_life cs ≡ some (some none, es))
      × (follow es no_file ≡ some no_manager)
unfolding dump_life
dump_life-follows cs =
    let (m, es) = dump_run cs new_manager in
    (
      (dump_run cs new_manager).1 ++ (manager_delete (some (some (dump_run cs new_manager).0))).1,
      refl,
      monitor-append follow_event (dump_run cs new_manager).1
            (manager_delete (some (some (dump_run cs new_manager).0))).1 no_file
            (file_of (dump_run cs new_manager).0) (dump_run-follows cs new_manager)
          ∙ manager_delete-follows (dump_run cs new_manager).0 _ refl,
    )
