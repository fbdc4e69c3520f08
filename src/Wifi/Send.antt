-- ===== src/Wifi/Send.antt =====
-- ARNETWORKAL_WifiNetwork_Send of Sources/Wifi/ARNETWORKAL_WifiNetwork.c.
pub mod Refine
use lib_arnetwork_al.Prelude.{
  ℕ, true, Option, some, List, [], ◌∷◌, ◌++◌, ◌==◌, add_u32, if◌then◌else◌, ◌>>=◌,
}
use lib_arnetwork_al.Platform.{Errno, eagain, read_bytes}
use lib_arnetwork_al.Frame.{Return, default, network_error}
use lib_arnetwork_al.Wifi.{
  WifiObject, Manager, Event, transmitted, dumped, data_sent, notify, memory,
}

-- What ARSAL_Socket_Send returns: a number of bytes, or -1 with an `errno`.
pub data SendReply : Type 0 where
  sent : ℕ → SendReply
  send_failed : Errno → SendReply

-- The buffer emptied.
abbrev pub emptied : WifiObject → WifiObject
emptied o = record o { size = 0; current_frame = o.buffer }

-- The branch of a failed send: its `errno` decides whether the data are dropped, or the network is
-- lost.
abbrev pub send_error : Errno → WifiObject → Option WifiObject → WifiObject × List Event
send_error e o receiver = elim e [
  | eagain ↦ (emptied o, [])
  | _ ↦
      if o.is_disconnected
      then (o, [])
      else (record o { is_disconnected = true }, notify o receiver)
]

-- ARNETWORKAL_WifiNetwork_Send
unfoldable pub send : SendReply → Manager → Option (Return × Manager × List Event)
send reply m = do
  o ← m.sender
  if o.size == 0 then some (default, m, []) else do
    bytes ← read_bytes (memory o) o.buffer o.size
    elim reply [
      | sent n ↦ some (
        default,
        record m { sender = some (record (emptied o) { bw_current = add_u32 o.bw_current n }) },
        transmitted o.socket bytes
            ∷ (if m.dump_file then dumped data_sent o.buffer o.size ∷ [] else []),
      )
      | send_failed e ↦
          let (o', events) = send_error e o m.receiver in
          some (network_error, record m { sender = some o' }, transmitted o.socket bytes ∷ events)
    ]
