-- ===== src/Ble.antt =====
-- The BLE network of Sources/BLE/ARNETWORKAL_BLENetwork.m. CoreBluetooth and libARSAL's BLE manager are
-- seen through what they answer, their objects are known by numbers, and of a UUID the model has what
-- the code asks of it.
pub mod Frames
pub mod Bandwidth
pub mod Connect
pub mod Calls
pub mod Queue
pub mod Transfer
pub mod Life
use lib_arnetwork_al.Prelude.{Bool, List, Option, ℕ, true, false}

-- The values of eARSAL_ERROR that the code tells apart.
pub data SalError : Type 0 where
  sal_ok characteristics_discovering characteristic_configuring not_connected : SalError
  other_sal_error : SalError

abbrev pub is_sal_ok : SalError → Bool
is_sal_ok answer = elim answer [ sal_ok ↦ true | _ ↦ false ]

-- A CBCharacteristic: its two properties that the code tests, whether its short UUID starts with one of
-- the two FTP prefixes, and what setNotificationCharacteristic answers for it, the first and the second
-- time.
pub record Characteristic : Type 0 where
  pub reference : ℕ
  pub writes_without_response : Bool
  pub notifies : Bool
  pub is_ftp : Bool
  pub notification : SalError
  pub ftp_notification : SalError

-- A CBService: whether its short UUID starts with the prefix of Parrot's services, what
-- discoverNetworkCharacteristics answers for it, and its characteristics behind that.
pub record Service : Type 0 where
  pub reference : ℕ
  pub is_parrot : Bool
  pub discovery : SalError
  pub characteristics : List Characteristic

-- An ARSALBLEManagerNotificationData: what sscanf reads of its characteristic's short UUID as a
-- hexadecimal number, and its value, by its address and its bytes.
pub record NotificationData : Type 0 where
  pub scanned_id : Option ℕ
  pub address : ℕ
  pub value : List ℕ

-- The properties of ARNETWORKAL_BLENetwork. A callback is known by a number, the semaphores are their
-- counts, and `retains` is how many `__bridge_retained` pointers to the object there are.
pub record BleNetwork : Type 0 where
  pub peripheral : Option ℕ
  pub central_manager : Option ℕ
  pub recv_service : Option Service
  pub send_service : Option Service
  pub recv_array : List NotificationData
  pub recv_notification_characteristics : List ℕ
  pub bw_elements_up : List ℕ
  pub bw_elements_down : List ℕ
  pub bw_index : ℕ
  pub bw_current_up : ℕ
  pub bw_current_down : ℕ
  pub bw_sem : ℕ
  pub bw_thread_running : ℕ
  pub on_disconnect : Option ℕ
  pub on_disconnect_custom_data : ℕ
  pub retains : ℕ

-- What a call does outside of the object: the messages to the BLE manager, each with what it is about,
-- the call of the disconnection callback, and CFRelease of a pointer to the object.
pub data BleEvent : Type 0 where
  connected_to : (peripheral : ℕ) → BleEvent
  discovered_services : BleEvent
  discovered_characteristics : (service : ℕ) → BleEvent
  set_delegate : (given : Bool) → BleEvent
  set_notification : (characteristic : ℕ) → BleEvent
  registered : (characteristics : List ℕ) → BleEvent
  wrote : List ℕ → (characteristic : Option ℕ) → BleEvent
  disconnected_from : (peripheral : ℕ) → BleEvent
  reset_manager unlocked_manager : BleEvent
  ble_notified : (callback custom_data : ℕ) → BleEvent
  released : BleEvent
