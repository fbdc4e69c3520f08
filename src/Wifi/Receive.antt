-- ===== src/Wifi/Receive.antt =====
-- ARNETWORKAL_WifiNetwork_Receive, _IsTooLongWithoutReceive and _FlushReceiveSocket of
-- Sources/Wifi/ARNETWORKAL_WifiNetwork.c.
pub mod Content
pub mod Refine
use lib_arnetwork_al.Prelude.{
  ℕ, ℤ, pos, negsuc, Bool, true, false, not, ◌&&◌, ◌||◌, Option, none, some, List, [], ◌∷◌, ◌++◌,
  length, ◌==◌, ltb, is_neg, add_u32, if◌then◌else◌, ◌>>=◌,
}
use lib_arnetwork_al.Platform.{Platform, Timespec, Errno, eagain, write_bytes}
use lib_arnetwork_al.Frame.{Return, default, no_data_available, network_error}
use lib_arnetwork_al.Wifi.{WifiObject, Manager, Event, dumped, drained, data_received, notify}

-- What `select` gives: an error, or whether the socket and the pipe are ready.
pub data SelectReply : Type 0 where
  select_failed : SelectReply
  ready : (socket fifo : Bool) → SelectReply

-- What ARSAL_Socket_Recv gives: the bytes that it wrote, or -1 with an `errno`.
pub data RecvReply : Type 0 where
  received : List ℕ → RecvReply
  recv_failed : Errno → RecvReply

-- How a flush ends: the socket is shut down, or ARSAL_Socket_Recv returns -1.
pub data FlushEnd : Type 0 where
  shut_down : FlushEnd
  flush_failed : Errno → FlushEnd

-- What the system answers during one call. The dates are those of the clock when the reception date
-- is first set, at the check before the read, at the check after it, and when the date is saved.
-- `stale` are the datagrams that a flush reads, and `last` is what it meets behind them.
pub record Replies : Type 0 where
  pub at_start : Timespec
  pub at_check : Timespec
  pub after_recv : Timespec
  pub at_save : Timespec
  pub select : SelectReply
  pub recv : RecvReply
  pub stale : List (List ℕ)
  pub last : FlushEnd

-- ARNETWORKAL_WIFINETWORK_DISCONNECT_TIMEOUT_MS
abbrev pub disconnect_timeout_ms : ℕ
disconnect_timeout_ms = 5000

abbrev pub exceeds : ℤ → ℕ → Bool
exceeds (pos n) limit = ltb limit n
exceeds (negsuc n) limit = false

-- ARNETWORKAL_WifiNetwork_IsTooLongWithoutReceive, of an object that is not NULL
abbrev pub is_too_long_without_receive : Platform → Timespec → WifiObject → Bool
is_too_long_without_receive p now o =
    exceeds (p.ms_time_diff o.last_data_received_date now) disconnect_timeout_ms

-- ARSAL_Socket_Recv into the object's buffer
abbrev pub recv_into : List ℕ → WifiObject → Option WifiObject
recv_into data_read o =
    write_bytes o.bytes 0 data_read >>= λ bytes. some (record o { bytes = bytes })

-- The socket is shut down, has no more data, or fails.
abbrev pub flush_last : FlushEnd → WifiObject → WifiObject
flush_last shut_down o = record o { recv_is_flushed = true }
flush_last (flush_failed e) o = elim e [ eagain ↦ record o { recv_is_flushed = true } | _ ↦ o ]

-- ARNETWORKAL_WifiNetwork_FlushReceiveSocket: a round for each read. A read of no byte ends it, as a
-- shutdown does.
unfoldable pub flush_receive_socket : List (List ℕ) → FlushEnd → WifiObject → Option WifiObject
flush_receive_socket [] last o = some (flush_last last o)
flush_receive_socket ([] ∷ ds) last o = some (flush_last shut_down o)
flush_receive_socket ((b ∷ bs) ∷ ds) last o =
    recv_into (b ∷ bs) o >>= λ o'. flush_receive_socket ds last o'

-- The read of a ready socket, with the result of the call.
abbrev pub read_socket : Bool → RecvReply → WifiObject → Option (Return × WifiObject × List Event)
read_socket dump_file (received []) o = some (no_data_available, record o { size = 0 }, [])
read_socket dump_file (received (b ∷ bs)) o = do
  o ← recv_into (b ∷ bs) o
  let size = length (b ∷ bs)
  some (
    default,
    record o { size = size; bw_current = add_u32 o.bw_current size; recv_is_flushed = false },
    if dump_file then dumped data_received o.buffer size ∷ [] else [],
  )
read_socket dump_file (recv_failed e) o = some (network_error, record o { size = 0 }, [])

-- The branch where the socket is ready.
unfoldable pub receive_ready :
    Platform → Replies → Bool → WifiObject → Option (Return × WifiObject × List Event)
receive_ready p env dump_file o =
    if not o.recv_is_flushed && is_too_long_without_receive p env.at_check o
    then (flush_receive_socket env.stale env.last o >>= λ o'. some (default, o', []))
    else (read_socket dump_file env.recv o >>= λ (result, o', events). some (
      result,
      (if is_too_long_without_receive p env.after_recv o'
          then o'
          else record o' { last_data_received_date = env.at_save }),
      events,
    ))

-- The branch where it is not: a timeout, or a signal through the pipe.
unfoldable pub receive_idle :
    Platform
    → Replies
    → (fifo : Bool) → Option WifiObject
    → WifiObject
    → Return × WifiObject × List Event
receive_idle p env fifo sender o =
    if (not o.is_disconnected && not fifo) && is_too_long_without_receive p env.at_check o
    then (no_data_available, record o { size = 0; is_disconnected = true }, notify o sender)
    else (no_data_available, record o { size = 0 }, [])

-- The reception date is set by the first call.
abbrev pub first_date : Timespec → WifiObject → WifiObject
first_date now o =
    if o.last_data_received_date.tv_sec == 0 && o.last_data_received_date.tv_nsec == 0
    then record o { last_data_received_date = now }
    else o

-- What follows `select`.
unfoldable pub receive_select :
    Platform → Replies → Manager → WifiObject → Option (Return × WifiObject × List Event)
unfolding receive_ready receive_idle flush_receive_socket
receive_select p env m o = elim env.select [
  | select_failed ↦ some (network_error, record o { size = 0 }, [])
  | ready socket fifo ↦ do
    (result, o', events) ←
        if socket
        then receive_ready p env m.dump_file o
        else some (receive_idle p env fifo m.sender o)
    some (result, o', events ++ (if fifo then drained o.fifo_read ∷ [] else []))
]

-- ARNETWORKAL_WifiNetwork_Receive; `FD_SET` of a negative descriptor is undefined.
unfoldable pub receive : Platform → Replies → Manager → Option (Return × Manager × List Event)
unfolding receive_select
receive p env m = do
  o ← m.receiver
  if is_neg o.socket || is_neg o.fifo_read then none else do
    (result, o', events) ← receive_select p env m (first_date env.at_start o)
    some (result, record m { receiver = some (record o' { current_frame = o'.buffer }) }, events)
