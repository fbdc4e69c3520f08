-- ===== src/Mux/Network.antt =====
-- The mux network as a network of a manager, in Sources/Mux/ARNETWORKAL_MuxNetwork.c: _Unlock,
-- _GetBandwidth, _BandwidthThread, the buffer sizes, InitMuxNetwork, CancelMuxNetwork and
-- CloseMuxNetwork.
pub mod Life
use lib_arnetwork_al.Prelude.{
  ◌>>=◌, Bool, List, Option, [], false, if◌then◌else◌, none, some, take, true, ℕ, ℤ, ◌&&◌, ◌>>=◌,
  ◌∷◌,
}
use lib_arnetwork_al.Errors.{Error, bad_parameter, network, ok}
use lib_arnetwork_al.Manager.{
  bandwidth_thread_function, get_bandwidth_function, get_recv_buffer_size_function,
  get_send_buffer_size_function, pop_frame_function, push_frame_function, receive_function,
  send_function, set_on_disconnect_callback_function, set_recv_buffer_size_function,
  set_send_buffer_size_function, unlock_function, function_of, mux_network, NetworkManager,
  Operations,
}
use lib_arnetwork_al.Manager.Dump.{manager_default_id_max, written}
use lib_arnetwork_al.Mux.{MuxObject, init_mux_network}

-- What these functions do outside of the manager: take and give back a reference to a context, open
-- and close its channel, have a queue allocated, and allocate and free the object.
pub data ContextEvent : Type 0 where
  mux_referenced mux_unreferenced : (ctx : ℕ) → ContextEvent
  channel_opened channel_closed queue_allocated : (ctx : ℕ) → ContextEvent
  allocated_mux_object freed_mux_object : ContextEvent

-- A manager with the object that is its sender and its receiver at once.
pub record MuxManager : Type 0 where
  pub network : NetworkManager
  pub mux_object : Option MuxObject

-- The twelve pointers that InitMuxNetwork sets; the class selectors stay as they are.
abbrev pub mux_operations : Operations → Operations
mux_operations o = record o {
  push_frame_op = some (function_of mux_network push_frame_function);
  pop_frame_op = some (function_of mux_network pop_frame_function);
  send_op = some (function_of mux_network send_function);
  receive_op = some (function_of mux_network receive_function);
  unlock_op = some (function_of mux_network unlock_function);
  get_bandwidth_op = some (function_of mux_network get_bandwidth_function);
  bandwidth_thread_op = some (function_of mux_network bandwidth_thread_function);
  set_on_disconnect_callback_op =
      some (function_of mux_network set_on_disconnect_callback_function);
  set_send_buffer_size_op = some (function_of mux_network set_send_buffer_size_function);
  set_recv_buffer_size_op = some (function_of mux_network set_recv_buffer_size_function);
  get_send_buffer_size_op = some (function_of mux_network get_send_buffer_size_function);
  get_recv_buffer_size_op = some (function_of mux_network get_recv_buffer_size_function);
}

abbrev pub mux_max_buffer_size : ℕ
mux_max_buffer_size = 16384

-- The table and the limits of a manager over the mux network.
abbrev pub with_mux : NetworkManager → NetworkManager
with_mux m = record m {
  operations = mux_operations m.operations;
  max_ids = manager_default_id_max;
  max_buffer_size = mux_max_buffer_size;
}

-- ARNETWORKAL_Manager_InitMuxNetwork, with what calloc and mux_channel_alloc_queue give
unfoldable pub init_mux_manager :
    (ctx : Option ℕ)
    → (allocated : Bool) → (queue : Option ℕ) → Option MuxManager
    → Error × Option MuxManager × List ContextEvent
init_mux_manager ctx allocated queue none =
    ((init_mux_network false ctx allocated queue).0, none, [])
init_mux_manager ctx allocated queue (some m) =
    let (result, object) = init_mux_network true ctx allocated queue in
    elim object [
      | none ↦ (result, some m, [])
      | some o ↦ (
        result,
        some (record m { network = with_mux m.network; mux_object = some o }),
        allocated_mux_object
            ∷ mux_referenced o.ctx
            ∷ channel_opened o.ctx
            ∷ queue_allocated o.ctx
            ∷ [],
      )
    ]

-- ARNETWORKAL_MuxNetwork_Unlock
abbrev pub mux_unlock : Option MuxManager → Option (Error × List ContextEvent)
mux_unlock none = some (bad_parameter, [])
mux_unlock (some m) = m.mux_object >>= λ o. some (ok, channel_closed o.ctx ∷ [])

-- ARNETWORKAL_MuxNetwork_GetBandwidth: what is written through the two pointers, which are followed.
abbrev pub mux_get_bandwidth : (upload download : Bool) → Option (Error × ℕ × ℕ)
mux_get_bandwidth upload download = if upload && download then some (ok, 0, 0) else none

-- ARNETWORKAL_MuxNetwork_BandwidthThread; NULL is 0.
abbrev pub mux_bandwidth_thread : ℕ
mux_bandwidth_thread = 0

-- ARNETWORKAL_MuxNetwork_SetSendBufferSize and _SetRecvBufferSize
abbrev pub mux_set_buffer_size : (buffer_size : ℤ) → Error
mux_set_buffer_size buffer_size = ok

-- ARNETWORKAL_MuxNetwork_GetSendBufferSize and _GetRecvBufferSize: the result, and what is written
-- through the pointer, which is followed.
abbrev pub mux_get_buffer_size : (buffer_size : Bool) → Option (Error × ℕ)
mux_get_buffer_size buffer_size = if buffer_size then some (ok, 0) else none

-- ARNETWORKAL_Manager_CancelMuxNetwork
abbrev pub cancel_mux_network : Option MuxManager → Error
cancel_mux_network none = bad_parameter
cancel_mux_network (some m) = ok

-- ARNETWORKAL_Manager_CloseMuxNetwork
abbrev pub close_mux_network :
    Option MuxManager → Option (Error × Option MuxManager × List ContextEvent)
close_mux_network none = some (bad_parameter, none, [])
close_mux_network (some m) = m.mux_object >>= λ o.
    some (ok, some (record m { mux_object = none }), mux_unreferenced o.ctx ∷ freed_mux_object ∷ [])
