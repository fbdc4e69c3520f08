-- ===== src/Manager/Reach/Choices.antt =====
-- The table of a manager by operations, the generic functions of Sources/ARNETWORKAL_Manager.c, and
-- the initialisations that a manager may have had.
use lib_arnetwork_al.Prelude.{
  Bool, List, Option, [], false, if◌then◌else◌, none, some, true, ℕ, ℤ, ◌∷◌, ◌≡◌,
}
use lib_arnetwork_al.Platform.{Platform}
use lib_arnetwork_al.Errors.{Error, manager_operation_not_supported, ok}
use lib_arnetwork_al.Wifi.{Manager}
use lib_arnetwork_al.Wifi.Lifecycle.{Mallocs, SetupReplies}
use lib_arnetwork_al.Manager.{
  push_frame_function, pop_frame_function, send_function, receive_function, unlock_function,
  get_bandwidth_function, bandwidth_thread_function, set_on_disconnect_callback_function,
  set_send_buffer_size_function, set_recv_buffer_size_function, get_send_buffer_size_function,
  get_recv_buffer_size_function, set_send_class_selector_function, set_recv_class_selector_function,
  get_send_class_selector_function, get_recv_class_selector_function, Function, Network,
  NetworkManager, Operation, Operations, ble_network, function_of, init_wifi_network, initialised,
  mux_network, wifi_network,
}
use lib_arnetwork_al.Manager.Generic.{
  manager_get_bandwidth, manager_get_recv_buffer_size, manager_get_recv_class_selector,
  manager_get_send_buffer_size, manager_get_send_class_selector, manager_set_on_disconnect_callback,
  manager_set_recv_buffer_size, manager_set_recv_class_selector, manager_set_send_buffer_size,
  manager_set_send_class_selector, manager_unlock,
}
use lib_arnetwork_al.Manager.Ble.{BleRequest, init_ble_network}
use lib_arnetwork_al.Manager.Dump.{new_manager}
use lib_arnetwork_al.Mux.{MuxObject}
use lib_arnetwork_al.Mux.Network.{ContextEvent, MuxManager, init_mux_manager}

-- The pointer of a table that is named for an operation.
abbrev pub pointer_of : Operation → Operations → Option Function
pointer_of op o = elim op [
  | push_frame_function ↦ o.push_frame_op
  | pop_frame_function ↦ o.pop_frame_op
  | send_function ↦ o.send_op
  | receive_function ↦ o.receive_op
  | unlock_function ↦ o.unlock_op
  | get_bandwidth_function ↦ o.get_bandwidth_op
  | bandwidth_thread_function ↦ o.bandwidth_thread_op
  | set_on_disconnect_callback_function ↦ o.set_on_disconnect_callback_op
  | set_send_buffer_size_function ↦ o.set_send_buffer_size_op
  | set_recv_buffer_size_function ↦ o.set_recv_buffer_size_op
  | get_send_buffer_size_function ↦ o.get_send_buffer_size_op
  | get_recv_buffer_size_function ↦ o.get_recv_buffer_size_op
  | set_send_class_selector_function ↦ o.set_send_class_selector_op
  | set_recv_class_selector_function ↦ o.set_recv_class_selector_op
  | get_send_class_selector_function ↦ o.get_send_class_selector_op
  | get_recv_class_selector_function ↦ o.get_recv_class_selector_op
]

-- The generic functions that return an error, and the operation that each is named for.
pub data Generic : Type 0 where
  unlock get_bandwidth set_on_disconnect_callback : Generic
  set_send_buffer_size set_recv_buffer_size : Generic
  get_send_buffer_size get_recv_buffer_size : Generic
  set_send_class_selector set_recv_class_selector : Generic
  get_send_class_selector get_recv_class_selector : Generic

abbrev pub named : Generic → Operation
named g = elim g [
  | unlock ↦ unlock_function
  | get_bandwidth ↦ get_bandwidth_function
  | set_on_disconnect_callback ↦ set_on_disconnect_callback_function
  | set_send_buffer_size ↦ set_send_buffer_size_function
  | set_recv_buffer_size ↦ set_recv_buffer_size_function
  | get_send_buffer_size ↦ get_send_buffer_size_function
  | get_recv_buffer_size ↦ get_recv_buffer_size_function
  | set_send_class_selector ↦ set_send_class_selector_function
  | set_recv_class_selector ↦ set_recv_class_selector_function
  | get_send_class_selector ↦ get_send_class_selector_function
  | get_recv_class_selector ↦ get_recv_class_selector_function
]

module _ {R : Type 0} (refuse : Error → R) (call : Function → NetworkManager → R) where
  abbrev pub ask : Generic → Option NetworkManager → R
  ask g m = elim g [
    | unlock ↦ manager_unlock refuse call m
    | get_bandwidth ↦ manager_get_bandwidth refuse call m
    | set_on_disconnect_callback ↦ manager_set_on_disconnect_callback refuse call m
    | set_send_buffer_size ↦ manager_set_send_buffer_size refuse call m
    | set_recv_buffer_size ↦ manager_set_recv_buffer_size refuse call m
    | get_send_buffer_size ↦ manager_get_send_buffer_size refuse call m
    | get_recv_buffer_size ↦ manager_get_recv_buffer_size refuse call m
    | set_send_class_selector ↦ manager_set_send_class_selector refuse call m
    | set_recv_class_selector ↦ manager_set_recv_class_selector refuse call m
    | get_send_class_selector ↦ manager_get_send_class_selector refuse call m
    | get_recv_class_selector ↦ manager_get_recv_class_selector refuse call m
  ]

  -- The answer of a function, or of none.
  abbrev pub reply_of : NetworkManager → Option Function → R
  reply_of m none = refuse manager_operation_not_supported
  reply_of m (some f) = call f m

-- What a network has functions for: the WiFi network for all, the mux network for all but the class
-- selectors, and the BLE network for neither these nor the buffer sizes.
pub data Kind : Type 0 where
  transfer_kind size_kind selector_kind : Kind

abbrev pub kind_of : Operation → Kind
kind_of op = elim op [
  | set_send_buffer_size_function ↦ size_kind
  | set_recv_buffer_size_function ↦ size_kind
  | get_send_buffer_size_function ↦ size_kind
  | get_recv_buffer_size_function ↦ size_kind
  | set_send_class_selector_function ↦ selector_kind
  | set_recv_class_selector_function ↦ selector_kind
  | get_send_class_selector_function ↦ selector_kind
  | get_recv_class_selector_function ↦ selector_kind
  | _ ↦ transfer_kind
]

-- The three networks that an initialisation of the C library chooses from.
pub data Chosen : Type 0 where
  chose_wifi chose_mux chose_ble : Chosen

abbrev pub network_of : Chosen → Network
network_of c = elim c [
  | chose_wifi ↦ wifi_network
  | chose_mux ↦ mux_network
  | chose_ble ↦ ble_network
]

abbrev pub provides : Chosen → Kind → Bool
provides c k = elim c [
  | chose_wifi ↦ true
  | chose_mux ↦ (elim k [ selector_kind ↦ false | _ ↦ true ])
  | chose_ble ↦ (elim k [ transfer_kind ↦ true | _ ↦ false ])
]

-- The function for an operation behind some initialisations, the last one first: that of the last
-- network that has one.
abbrev pub latest : Operation → List Chosen → Option Function
latest op [] = none
latest op (c ∷ cs) =
    if provides c (kind_of op) then some (function_of (network_of c) op) else latest op cs

-- What may become of a manager: a network is initialised with success, or only the objects change, as
-- all other functions change them. A manager has the table that calloc leaves before all else.
pub data History : List Chosen → NetworkManager → Type 0 where
  made : History [] new_manager
  objects_changed :
      (cs : List Chosen) (m : NetworkManager) (objects : Manager)
      → History cs m
      → History cs (record m { objects = objects })
  wifi_chosen :
      (cs : List Chosen) (m m' : NetworkManager) (p : Platform) (ms : Mallocs)
      (env_s env_r : SetupReplies) (addr : Bool) (t : ℤ)
      → init_wifi_network p ms env_s env_r addr t (some m) ≡ initialised m'
      → History cs m
      → History (chose_wifi ∷ cs) m'
  mux_chosen :
      (cs : List Chosen) (m m' : NetworkManager) (ctx : Option ℕ) (allocated : Bool)
      (queue : Option ℕ) (before : Option MuxObject) (o : MuxManager) (es : List ContextEvent)
      → init_mux_manager ctx allocated queue (some (record { network = m; mux_object = before }))
        ≡ (ok, some o, es)
      → o.network ≡ m'
      → History cs m
      → History (chose_mux ∷ cs) m'
  ble_chosen :
      (cs : List Chosen) (m m' : NetworkManager) (core_bluetooth : Bool) (created connected : Error)
      (requests : List BleRequest)
      → init_ble_network core_bluetooth created connected (some m) ≡ (ok, some m', requests)
      → History cs m
      → History (chose_ble ∷ cs) m'
