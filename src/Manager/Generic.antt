-- ===== src/Manager/Generic.antt =====
-- The functions of Sources/ARNETWORKAL_Manager.c that hand a call to the network of a manager: NULL is
-- BAD_PARAMETER, and a NULL pointer of the table MANAGER_OPERATION_NOT_SUPPORTED. What a network's
-- function does is a parameter, `call`, and `refuse` is what a call that returns an error gives.
use lib_arnetwork_al.Prelude.{Option, none, some}
use lib_arnetwork_al.Errors.{Error, bad_parameter, manager_operation_not_supported}
use lib_arnetwork_al.Manager.{Function, NetworkManager, Operations}

abbrev pub dispatch {ℓ} :
    {R : Type ℓ}
    → (Operations → Option Function)
    → (refuse : Error → R) → (call : Function → NetworkManager → R) → Option NetworkManager
    → R
dispatch pointer refuse call none = refuse bad_parameter
dispatch pointer refuse call (some m) = elim (pointer m.operations) [
  | none ↦ refuse manager_operation_not_supported
  | some function ↦ call function m
]

module _ {ℓ} {R : Type ℓ} (refuse : Error → R) (call : Function → NetworkManager → R) where
  -- ARNETWORKAL_Manager_Unlock
  abbrev pub manager_unlock : Option NetworkManager → R
  manager_unlock = dispatch (λ o. o.unlock_op) refuse call

  -- ARNETWORKAL_Manager_GetBandwidth
  abbrev pub manager_get_bandwidth : Option NetworkManager → R
  manager_get_bandwidth = dispatch (λ o. o.get_bandwidth_op) refuse call

  -- ARNETWORKAL_Manager_SetOnDisconnectCallback
  abbrev pub manager_set_on_disconnect_callback : Option NetworkManager → R
  manager_set_on_disconnect_callback = dispatch (λ o. o.set_on_disconnect_callback_op) refuse call

  -- ARNETWORKAL_Manager_SetSendBufferSize, _SetRecvBufferSize, _GetSendBufferSize and
  -- _GetRecvBufferSize
  abbrev pub manager_set_send_buffer_size : Option NetworkManager → R
  manager_set_send_buffer_size = dispatch (λ o. o.set_send_buffer_size_op) refuse call

  abbrev pub manager_set_recv_buffer_size : Option NetworkManager → R
  manager_set_recv_buffer_size = dispatch (λ o. o.set_recv_buffer_size_op) refuse call

  abbrev pub manager_get_send_buffer_size : Option NetworkManager → R
  manager_get_send_buffer_size = dispatch (λ o. o.get_send_buffer_size_op) refuse call

  abbrev pub manager_get_recv_buffer_size : Option NetworkManager → R
  manager_get_recv_buffer_size = dispatch (λ o. o.get_recv_buffer_size_op) refuse call

  -- ARNETWORKAL_Manager_SetSendClassSelector, _SetRecvClassSelector, _GetSendClassSelector and
  -- _GetRecvClassSelector
  abbrev pub manager_set_send_class_selector : Option NetworkManager → R
  manager_set_send_class_selector = dispatch (λ o. o.set_send_class_selector_op) refuse call

  abbrev pub manager_set_recv_class_selector : Option NetworkManager → R
  manager_set_recv_class_selector = dispatch (λ o. o.set_recv_class_selector_op) refuse call

  abbrev pub manager_get_send_class_selector : Option NetworkManager → R
  manager_get_send_class_selector = dispatch (λ o. o.get_send_class_selector_op) refuse call

  abbrev pub manager_get_recv_class_selector : Option NetworkManager → R
  manager_get_recv_class_selector = dispatch (λ o. o.get_recv_class_selector_op) refuse call

-- ARNETWORKAL_Manager_BandwidthThread; `null` is (void *)0.
abbrev pub manager_bandwidth_thread {ℓ} :
    {R : Type ℓ} → (null : R) → (call : Function → NetworkManager → R) → Option NetworkManager → R
manager_bandwidth_thread null call none = null
manager_bandwidth_thread null call (some m) = elim (m.operations.bandwidth_thread_op) [
  | none ↦ null
  | some function ↦ call function m
]
