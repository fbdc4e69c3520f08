-- ===== src/Wifi.antt =====
-- The WiFi network of Sources/Wifi/ARNETWORKAL_WifiNetwork.c: its object, the manager as its
-- functions see it, and what they do beyond the two.
pub mod Push
pub mod Pop
pub mod Send
pub mod Receive
pub mod Transfer
pub mod Bandwidth
pub mod Session
pub mod Lifecycle
pub mod Options
pub mod Closing
use lib_arnetwork_al.Prelude.{
  ℕ, not, [], ◌∷◌, ◌+◌, ◌-◌, ◌≡◌, ◌<◌, AllBytes, Bool, true, false, Option, none, some, List, leb,
  length, drop, take, ℤ, ◌≤◌, add_u32, add_word, u32_mod, word_mod, if◌then◌else◌, ◌>>=◌,
}
use lib_arnetwork_al.Platform.{Timespec, Platform, Memory, block, write_bytes}
use lib_arnetwork_al.Frame.{Return, header_size}

-- ARNETWORKAL_WifiNetworkObject. `buffer` and `current_frame` are addresses, 0 for NULL, and `bytes`
-- is what the allocation at `buffer` holds. A callback is known by a number; its semaphores are
-- their counts.
pub record WifiObject : Type 0 where
  pub socket : ℤ
  pub socket_buffer_size : ℤ
  pub fifo_read : ℤ
  pub fifo_write : ℤ
  pub buffer : ℕ
  pub bytes : List ℕ
  pub current_frame : ℕ
  pub size : ℕ
  pub timeout_sec : ℕ
  pub last_data_received_date : Timespec
  pub is_disconnected : Bool
  pub recv_is_flushed : Bool
  pub on_disconnect : Option ℕ
  pub on_disconnect_custom_data : ℕ
  pub bw_sem : ℕ
  pub bw_thread_running : ℕ
  pub bw_index : ℕ
  pub bw_elements : List ℕ
  pub bw_current : ℕ

-- The fields of ARNETWORKAL_Manager_t that these functions read and write; an object is `none` where
-- its pointer is NULL, and `dump_file` is whether the pointer is not NULL.
pub record Manager : Type 0 where
  pub sender : Option WifiObject
  pub receiver : Option WifiObject
  pub dump_file : Bool

-- The tags of Sources/ARNETWORKAL_Manager.h.
pub data DumpTag : Type 0 where
  frame_pushed data_sent data_received frame_popped : DumpTag

-- What a call does outside of the manager: `ARSAL_Print_DumpData` of so many bytes from an address,
-- `ARSAL_Socket_Send` of some bytes on a socket, `read` from the signalling pipe, and a call of the
-- disconnection callback with its custom data.
pub data Event : Type 0 where
  dumped : DumpTag → (address size : ℕ) → Event
  transmitted : (socket : ℤ) → List ℕ → Event
  drained : (fifo : ℤ) → Event
  notified : (callback custom_data : ℕ) → Event

-- `(object == NULL) || (object->isDisconnected == 0)`
abbrev pub is_connected : Option WifiObject → Bool
is_connected none = true
is_connected (some o) = not o.is_disconnected

-- The call of `onDisconnect`, where it is set and the other object has not seen a disconnection.
abbrev pub notify : WifiObject → Option WifiObject → List Event
notify o other = elim o.on_disconnect [
  | none ↦ []
  | some callback ↦
      if is_connected other then notified callback o.on_disconnect_custom_data ∷ [] else []
]

-- ARNETWORKAL_WIFINETWORK_MAX_DATA_BUFFER_SIZE
abbrev pub max_data_buffer_size : Platform → ℕ
max_data_buffer_size p = p.ip_maxpacket - 8 - header_size

-- ARNETWORKAL_WIFINETWORK_SENDING_BUFFER_SIZE and _RECEIVING_BUFFER_SIZE
abbrev pub sending_buffer_size : Platform → ℕ
sending_buffer_size p = max_data_buffer_size p + header_size

abbrev pub receiving_buffer_size : Platform → ℕ
receiving_buffer_size p = max_data_buffer_size p + header_size

-- The bytes of an object's buffer, as memory.
abbrev pub memory : WifiObject → Memory
memory o = block o.buffer o.bytes

-- The offset of `currentFrame` in the buffer.
abbrev pub offset : WifiObject → ℕ
offset o = o.current_frame - o.buffer

-- The buffer's bytes that wait to be sent.
abbrev pub pending : WifiObject → List ℕ
pending o = take o.size o.bytes

-- The received bytes that no call has popped.
abbrev pub unread : WifiObject → List ℕ
unread o = drop (offset o) (take o.size o.bytes)

-- A sender's buffer is allocated whole, inside the address space, and `currentFrame` stands behind
-- the bytes that are filled.
pub record IsSender (p : Platform) (o : WifiObject) : Type 0 where
  pub allocated : length o.bytes ≡ sending_buffer_size p
  pub placed : o.buffer + sending_buffer_size p < word_mod
  pub filled : o.size ≤ sending_buffer_size p
  pub behind : o.current_frame ≡ o.buffer + o.size

-- A receiver's buffer is allocated whole, above the first 4 GiB of the address space, and
-- `currentFrame` stands in the bytes that were received.
pub record IsReceiver (p : Platform) (o : WifiObject) : Type 0 where
  pub allocated : length o.bytes ≡ receiving_buffer_size p
  pub above : u32_mod ≤ o.buffer
  pub placed : o.buffer + receiving_buffer_size p + u32_mod < word_mod
  pub filled : o.size ≤ receiving_buffer_size p
  pub from : o.buffer ≤ o.current_frame
  pub to : o.current_frame ≤ o.buffer + o.size
  pub octets : AllBytes o.bytes

-- The same, wherever `currentFrame` stands: it is not set before the first reception.
pub record IsBuffer (p : Platform) (o : WifiObject) : Type 0 where
  pub allocated : length o.bytes ≡ receiving_buffer_size p
  pub above : u32_mod ≤ o.buffer
  pub placed : o.buffer + receiving_buffer_size p + u32_mod < word_mod
  pub filled : o.size ≤ receiving_buffer_size p
  pub octets : AllBytes o.bytes

pub IsReceiver-IsBuffer : {p : Platform} {o : WifiObject} → IsReceiver p o → IsBuffer p o
IsReceiver-IsBuffer v = record {
  allocated = v.allocated;
  above = v.above;
  placed = v.placed;
  filled = v.filled;
  octets = v.octets;
}
