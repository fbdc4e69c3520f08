-- ===== src/Wifi/Options.antt =====
-- The socket options of a WiFi manager in Sources/Wifi/ARNETWORKAL_WifiNetwork.c: the sizes of the
-- sockets' buffers, and their class selectors.
pub mod Capacity
use lib_arnetwork_al.Prelude.{
  Bool, Option, if◌then◌else◌, negsuc, none, not, pos, set, some, ℤ, ◌+◌, ◌-◌, ◌/◌, ◌==◌, ◌>>=◌,
}
use lib_arnetwork_al.Errors.{Error, bad_parameter, ok, wifi_socket_getopt, wifi_socket_setopt}
use lib_arnetwork_al.Wifi.{Manager, WifiObject}

-- What `getsockopt` gives: the option's value, or a failure that leaves the variable as it was.
pub data GetReply : Type 0 where
  option_value : ℤ → GetReply
  get_failed : GetReply

abbrev pub read_option : GetReply → (variable : ℤ) → Error × ℤ
read_option (option_value v) variable = (ok, v)
read_option get_failed variable = (wifi_socket_getopt, variable)

-- C's division by two, towards 0.
abbrev pub half : ℤ → ℤ
half (pos n) = pos (n / 2)
half (negsuc n) = if n == 0 then pos 0 else negsuc ((n + 1) / 2 - 1)

-- The body that ARNETWORKAL_WifiNetwork_GetSendBufferSize and _GetRecvBufferSize share: `variable` is
-- what the pointer's target holds, `none` for NULL, and the object is the sender's or the receiver's.
unfoldable pub get_buffer_size :
    GetReply → (variable : Option ℤ) → Option WifiObject → Option (Error × Option ℤ)
get_buffer_size reply none object = some (bad_parameter, none)
get_buffer_size reply (some variable) object = do
  o ← object
  let (result, value) = read_option reply variable
  some (result, some (half value))

-- ARNETWORKAL_WifiNetwork_GetSendBufferSize
abbrev pub get_send_buffer_size : GetReply → Option ℤ → Manager → Option (Error × Option ℤ)
get_send_buffer_size reply variable m = get_buffer_size reply variable m.sender

-- ARNETWORKAL_WifiNetwork_GetRecvBufferSize
abbrev pub get_recv_buffer_size : GetReply → Option ℤ → Manager → Option (Error × Option ℤ)
get_recv_buffer_size reply variable m = get_buffer_size reply variable m.receiver

-- The object's own record of the size, behind a `setsockopt` that succeeded.
abbrev pub record_size : (buffer_size : ℤ) → Error → Option ℤ → WifiObject → WifiObject
record_size buffer_size result none o = record o { socket_buffer_size = buffer_size }
record_size buffer_size result (some value) o = elim result [
  | ok ↦ record o { socket_buffer_size = value }
  | _ ↦ record o { socket_buffer_size = buffer_size }
]

-- ARNETWORKAL_WifiNetwork_SetSendBufferSize; `accepted` is whether `setsockopt` returned 0.
unfoldable pub set_send_buffer_size :
    (accepted : Bool) → GetReply → (buffer_size : ℤ) → Manager → Option (Error × Manager)
set_send_buffer_size accepted reply buffer_size m = do
  o ← m.sender
  if accepted
      then (get_send_buffer_size reply (some o.socket_buffer_size) m >>= λ (result, value).
          some (ok, record m { sender = some (record_size buffer_size result value o) }))
      else some (wifi_socket_setopt, m)

-- ARNETWORKAL_WifiNetwork_SetRecvBufferSize
unfoldable pub set_recv_buffer_size :
    (accepted : Bool) → GetReply → (buffer_size : ℤ) → Manager → Option (Error × Manager)
set_recv_buffer_size accepted reply buffer_size m = do
  o ← m.receiver
  if accepted
      then (get_recv_buffer_size reply (some o.socket_buffer_size) m >>= λ (result, value).
          some (ok, record m { receiver = some (record_size buffer_size result value o) }))
      else some (wifi_socket_setopt, m)

-- ARNETWORKAL_WifiNetwork_SetSendClassSelector and _SetRecvClassSelector, of the object that they
-- take: the socket that is set, and the result.
abbrev pub set_class_selector : (accepted : Bool) → Option WifiObject → Option (Error × ℤ)
set_class_selector accepted object =
    object >>= λ o. some (if accepted then ok else wifi_socket_setopt, o.socket)

-- ARNETWORKAL_WifiNetwork_GetSendClassSelector and _GetRecvClassSelector: what is written through
-- the pointer, of which the argument is whether it is not NULL.
abbrev pub get_class_selector :
    GetReply → (pointer : Bool) → Option WifiObject → Option (Error × Option ℤ)
get_class_selector reply pointer object =
    if pointer
    then (object >>= λ o.
        some
          (elim reply [ option_value v ↦ (ok, some v) | get_failed ↦ (wifi_socket_getopt, none) ]))
    else some (bad_parameter, none)
