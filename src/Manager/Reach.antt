-- ===== src/Manager/Reach.antt =====
-- Which function answers the generic functions of Sources/ARNETWORKAL_Manager.c on a manager that
-- several networks had, one behind the other.
pub mod Choices
pub mod Tables
use mathlib.Core.Path.{subst}
use lib_arnetwork_al.Prelude.{List, Option, ap, none, refl, some, sym, ◌∙◌, ◌≡◌}
use lib_arnetwork_al.Errors.{Error, bad_parameter, manager_operation_not_supported}
use lib_arnetwork_al.Manager.{
  Function, NetworkManager, Operation, initialised, push_frame_function, wifi_operations,
  bandwidth_thread_function,
}
use lib_arnetwork_al.Manager.Generic.{manager_bandwidth_thread}
use lib_arnetwork_al.Manager.Ble.{ble_operations}
use lib_arnetwork_al.Manager.Dump.{new_manager}
use lib_arnetwork_al.Mux.Network.{mux_operations}
use lib_arnetwork_al.Manager.Reach.Choices.{
  Chosen, Generic, History, ask, ble_chosen, chose_ble, chose_mux, chose_wifi, latest, made,
  mux_chosen, named, objects_changed, pointer_of, reply_of, unlock, wifi_chosen,
}
use lib_arnetwork_al.Manager.Reach.Tables.{
  WifiTable, ble_pointer, ble_table, chosen_pointer, init_wifi_network-WifiTable, mux_pointer,
  mux_table, wifi_pointer,
}

pointer_of-latest :
    (cs : List Chosen) (m : NetworkManager)
    → History cs m
    → (op : Operation) → pointer_of op m.operations ≡ latest op cs
pointer_of-latest cs m made op = elim op as (λ op. pointer_of op new_manager.operations ≡ none) [
  | push_frame_function ↦ refl
  | _ ↦ refl
]
pointer_of-latest cs m (objects_changed cs' m' objects h) op = pointer_of-latest cs' m' h op
pointer_of-latest cs m (wifi_chosen cs' m1 m' p ms env_s env_r addr t e h) op =
    chosen_pointer chose_wifi cs' op wifi_operations m1.operations m'.operations
      (subst WifiTable e (init_wifi_network-WifiTable p ms env_s env_r addr t m1)) (wifi_pointer op)
      (pointer_of-latest cs' m1 h op)
pointer_of-latest cs m (mux_chosen cs' m1 m' ctx allocated queue before o es e same h) op =
    chosen_pointer chose_mux cs' op (mux_operations m1.operations) m1.operations m'.operations
      (ap (λ (x : NetworkManager). x.operations) (sym same)
        ∙ mux_table (record { network = m1; mux_object = before }) o ctx allocated queue es e)
      (mux_pointer op m1.operations) (pointer_of-latest cs' m1 h op)
pointer_of-latest cs m (ble_chosen cs' m1 m' core_bluetooth created connected requests e h) op =
    chosen_pointer chose_ble cs' op (ble_operations m1.operations) m1.operations m'.operations
      (ble_table core_bluetooth created connected m1 m' requests e) (ble_pointer op m1.operations)
      (pointer_of-latest cs' m1 h op)

module _ {R : Type 0} (refuse : Error → R) (call : Function → NetworkManager → R)
    (m : NetworkManager) where
  pointer-reply :
      (o : Option Function)
      → (elim o [ none ↦ refuse manager_operation_not_supported | some f ↦ call f m ])
        ≡ reply_of refuse call m o
  pointer-reply none = refl
  pointer-reply (some f) = refl

  ask-reply :
      (g : Generic)
      → ask refuse call g (some m) ≡ reply_of refuse call m (pointer_of (named g) m.operations)
  ask-reply g =
      elim g
        as (λ g.
          ask refuse call g (some m) ≡ reply_of refuse call m (pointer_of (named g) m.operations)) [
            | unlock ↦ pointer-reply m.operations.unlock_op
            | other ↦ pointer-reply (pointer_of (named other) m.operations)
          ]

-- Behind any successful initialisations of the WiFi, the mux and the BLE network on a manager of New,
-- with any changes of its objects between, each of the eleven generic functions that return an error
-- gives what the function that is meant for it gives, of the last initialised network that has one,
-- whichever networks came behind that; where none has, it gives MANAGER_OPERATION_NOT_SUPPORTED.
-- BandwidthThread does so with NULL instead of the error, and the four pointers that are called
-- directly, to PushFrame, PopFrame, Send and Receive, are those of the last network. On NULL the eleven
-- give BAD_PARAMETER.
pub generic-answers :
    {R : Type 0} (refuse : Error → R) (null : R) (call : Function → NetworkManager → R)
    (cs : List Chosen) (m : NetworkManager)
    → History cs m
    → ((g : Generic) → ask refuse call g (some m) ≡ reply_of refuse call m (latest (named g) cs))
      × ((g : Generic) → ask refuse call g none ≡ refuse bad_parameter)
      × (manager_bandwidth_thread null call (some m)
          ≡ reply_of (λ e. null) call m (latest bandwidth_thread_function cs))
      × ((op : Operation) → pointer_of op m.operations ≡ latest op cs)
generic-answers refuse null call cs m h = (
  (λ g.
      ask-reply refuse call m g ∙ ap (reply_of refuse call m) (pointer_of-latest cs m h (named g))),
  (λ g. elim g as (λ g. ask refuse call g none ≡ refuse bad_parameter) [
    | unlock ↦ refl
    | _ ↦ refl
  ]),
  pointer-reply (λ e. null) call m m.operations.bandwidth_thread_op
      ∙ ap (reply_of (λ e. null) call m) (pointer_of-latest cs m h bandwidth_thread_function),
  pointer_of-latest cs m h,
)
