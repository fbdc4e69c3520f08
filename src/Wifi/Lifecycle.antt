-- ===== src/Wifi/Lifecycle.antt =====
-- The life of a WiFi manager in Sources/Wifi/ARNETWORKAL_WifiNetwork.c: _New, _Connect, _Bind,
-- _SetOnDisconnectCallback, _Signal and _Cancel of ARNETWORKAL_WifiNetwork.
pub mod Setup
pub mod Release
use lib_arnetwork_al.Prelude.{
  List, Option, [], false, if◌then◌else◌, is_minus_one, is_neg, minus_one, negsuc, none, pos,
  replicate, set, some, u32_mod, ℕ, ℤ, ◌%◌, ◌++◌, ◌-◌, ◌∷◌,
}
use lib_arnetwork_al.Platform.{Errno, block, eacces}
use lib_arnetwork_al.Errors.{
  Error, alloc, bad_parameter, fifo_init, ok, wifi, wifi_socket_creation,
  wifi_socket_permission_denied,
}
use lib_arnetwork_al.Wifi.{Manager, WifiObject}
use lib_arnetwork_al.Wifi.Bandwidth.{bw_nb_elems}

-- A block that `malloc` gives: its address, and what it happens to hold.
pub record Allocation : Type 0 where
  pub address : ℕ
  pub contents : List ℕ

-- What the four calls of `malloc` give, `none` for NULL. An object's fields hold anything.
pub record Mallocs : Type 0 where
  pub sender_object : Option WifiObject
  pub sender_buffer : Option Allocation
  pub receiver_object : Option WifiObject
  pub receiver_buffer : Option Allocation

-- The fields that New sets in both objects.
abbrev pub init_object : WifiObject → WifiObject
init_object o = record o {
  socket = minus_one;
  socket_buffer_size = minus_one;
  fifo_read = minus_one;
  fifo_write = minus_one;
  last_data_received_date = record { tv_sec = 0; tv_nsec = 0 };
  is_disconnected = false;
  recv_is_flushed = false;
  on_disconnect = none;
  on_disconnect_custom_data = 0;
  bw_index = 0;
  bw_current = 0;
  bw_elements = replicate bw_nb_elems 0;
  bw_sem = 0;
  bw_thread_running = 1;
}

-- The sender's buffer, and then the receiver's. The latter's `currentFrame` is left as it was.
abbrev pub give_sender_buffer : Option Allocation → WifiObject → Error × WifiObject
give_sender_buffer none o = (alloc, record o { buffer = 0; bytes = [] })
give_sender_buffer (some b) o =
    (ok, record o { buffer = b.address; bytes = b.contents; size = 0; current_frame = b.address })

abbrev pub give_receiver_buffer : Option Allocation → WifiObject → Error × WifiObject
give_receiver_buffer none o = (alloc, record o { buffer = 0; bytes = [] })
give_receiver_buffer (some b) o =
    (ok, record o { buffer = b.address; bytes = b.contents; size = 0 })

-- The receiver's half of New.
abbrev pub new_receiver : Mallocs → Manager → Error × Manager
new_receiver ms m = elim ms.receiver_object [
  | none ↦ (alloc, record m { receiver = none })
  | some raw ↦
      let (result, o) = give_receiver_buffer ms.receiver_buffer (init_object raw) in
      (result, record m { receiver = some o })
]

-- ARNETWORKAL_WifiNetwork_New
unfoldable pub new : Mallocs → Option Manager → Error × Option Manager
new ms none = (bad_parameter, none)
new ms (some m) = elim ms.sender_object [
  | none ↦ (alloc, some (record m { sender = none }))
  | some raw ↦
      let (result, o) = give_sender_buffer ms.sender_buffer (init_object raw) in
      let m = record m { sender = some o } in
      elim result [
        | ok ↦ (let (result, m) = new_receiver ms m in (result, some m))
        | failure ↦ (failure, some m)
      ]
]

-- What the system answers while a socket is set up: the socket, the pipe's two ends (`none` if it
-- fails), what the option SO_SNDBUF was read as, and the `errno` of `connect` or `bind`. Where the
-- option cannot be read, `send_buffer` is what its variable happens to hold.
pub record SetupReplies : Type 0 where
  pub socket_created : ℤ
  pub pipe : Option (ℤ × ℤ)
  pub send_buffer : ℤ
  pub attach_failed : Option Errno

-- The socket and the pipe of an object; the pipe's failure stands in place of the socket's.
abbrev pub open_descriptors : SetupReplies → WifiObject → Error × WifiObject
open_descriptors env o = elim env.pipe [
  | none ↦ (fifo_init, record o { socket = env.socket_created })
  | some (read_end, write_end) ↦ (
    if is_neg env.socket_created then wifi_socket_creation else ok,
    record o { socket = env.socket_created; fifo_read = read_end; fifo_write = write_end },
  )
]

-- `connect` and `bind`
abbrev pub attach_error : Option Errno → Error
attach_error none = ok
attach_error (some e) = elim e [ eacces ↦ wifi_socket_permission_denied | _ ↦ wifi ]

-- ARNETWORKAL_WifiNetwork_Connect
unfoldable pub connect : SetupReplies → Option Manager → Error × Option Manager
connect env none = (bad_parameter, none)
connect env (some m) = elim m.sender [
  | none ↦ (bad_parameter, some m)
  | some o ↦
      let (result, o) = open_descriptors env o in
      elim result [
        | ok ↦ (
          attach_error env.attach_failed,
          some (record m { sender = some (record o { socket_buffer_size = env.send_buffer }) }),
        )
        | failure ↦ (failure, some (record m { sender = some o }))
      ]
]

-- An `int` in a `uint32_t`.
abbrev pub to_u32 : ℤ → ℕ
to_u32 (pos n) = n % u32_mod
to_u32 (negsuc n) = u32_mod - 1 - n % u32_mod

-- ARNETWORKAL_WifiNetwork_Bind
unfoldable pub bind : SetupReplies → (timeout_sec : ℤ) → Option Manager → Error × Option Manager
bind env timeout_sec none = (bad_parameter, none)
bind env timeout_sec (some m) = elim m.receiver [
  | none ↦ (bad_parameter, some m)
  | some o ↦
      let (result, o) = open_descriptors env o in
      let m = record m { receiver = some (record o { timeout_sec = to_u32 timeout_sec }) } in
      (elim result [ ok ↦ attach_error env.attach_failed | failure ↦ failure ], some m)
]

-- ARNETWORKAL_WifiNetwork_SetOnDisconnectCallback
unfoldable pub set_on_disconnect_callback :
    Option ℕ → (custom_data : ℕ) → Option Manager → Error × Option Manager
set_on_disconnect_callback callback custom_data none = (bad_parameter, none)
set_on_disconnect_callback none custom_data (some m) = (bad_parameter, some m)
set_on_disconnect_callback (some callback) custom_data (some m) = elim m.receiver [
  | none ↦ (bad_parameter, some m)
  | some r ↦ elim m.sender [
    | none ↦ (bad_parameter, some m)
    | some s ↦ (
      ok,
      some (record m {
        receiver =
            some
              (record r { on_disconnect = some callback; on_disconnect_custom_data = custom_data });
        sender =
            some
              (record s { on_disconnect = some callback; on_disconnect_custom_data = custom_data });
      }),
    )
  ]
]

-- The pipes that a signal is written to.
abbrev pub signal_object : Option WifiObject → List ℤ
signal_object none = []
signal_object (some o) = if is_minus_one o.fifo_write then [] else o.fifo_write ∷ []

-- ARNETWORKAL_WifiNetwork_Signal
unfoldable pub signal : Option Manager → Error × List ℤ
signal none = (bad_parameter, [])
signal (some m) = (ok, signal_object m.sender ++ signal_object m.receiver)

-- ARNETWORKAL_WifiNetwork_Cancel
abbrev pub cancel : Option Manager → Error
cancel none = bad_parameter
cancel (some m) = ok
