-- ===== src/Wifi/Receive/Content.antt =====
-- What ARNETWORKAL_WifiNetwork_Receive leaves in the buffer, on each of its paths.
use lib_arnetwork_al.Prelude.{
  ℕ, add_u32, ◌+◌, ◌≤◌, ◌≡◌, refl, Bool, true, false, some, List, [], ◌∷◌, ◌++◌, arith, length,
  take, drop, length-append, length-drop, take-append, leb-true, AllBytes, AllBytes-append,
  AllBytes-drop, if◌then◌else◌,
}
use lib_arnetwork_al.Platform.{Platform, write_bytes}
use lib_arnetwork_al.Frame.{Return, default, no_data_available, network_error}
use lib_arnetwork_al.Wifi.{WifiObject, Event, dumped, data_received, receiving_buffer_size}
use lib_arnetwork_al.Wifi.Receive.{
  RecvReply, received, recv_failed, FlushEnd, recv_into, flush_last, flush_receive_socket,
  read_socket,
}

-- The result of a read that is not a flush.
abbrev pub reply_return : RecvReply → Return
reply_return (received []) = no_data_available
reply_return (received (b ∷ bs)) = default
reply_return (recv_failed e) = network_error

-- What `recv` may write: bytes, no more than it was given room for.
pub record IsDatagram (p : Platform) (d : List ℕ) : Type 0 where
  pub fits : length d ≤ receiving_buffer_size p
  pub octets : AllBytes d

abbrev pub AllDatagrams : Platform → List (List ℕ) → Type 0
AllDatagrams p [] = Unit {0}
AllDatagrams p (d ∷ ds) = IsDatagram p d × AllDatagrams p ds

abbrev pub IsReply : Platform → RecvReply → Type 0
IsReply p (received d) = IsDatagram p d
IsReply p (recv_failed e) = Unit {0}

-- The bytes of a reply.
abbrev pub reply_bytes : RecvReply → List ℕ
reply_bytes (received d) = d
reply_bytes (recv_failed e) = []

-- The buffer is still the allocation of `o`.
pub record Holds (p : Platform) (o o' : WifiObject) : Type 0 where
  pub same : o'.buffer ≡ o.buffer
  pub allocated : length o'.bytes ≡ receiving_buffer_size p
  pub octets : AllBytes o'.bytes
  pub filled : o'.size ≤ receiving_buffer_size p

module _ {p : Platform} (o : WifiObject) where
  recv_into-bytes :
      (d : List ℕ)
      → length o.bytes ≡ receiving_buffer_size p
      → AllBytes o.bytes
      → IsDatagram p d
      → (bytes : List ℕ) × (recv_into d o ≡ some (record o { bytes = bytes }))
        × (length bytes ≡ receiving_buffer_size p)
        × AllBytes bytes
        × (take (length d) bytes ≡ d)
  unfolding write_bytes
  recv_into-bytes d len octets vd = (
    d ++ drop (0 + length d) o.bytes,
    rw (leb-true (0 + length d) (length o.bytes) (omega (arith, vd))),
    omega (
      arith,
      vd,
      length-append d (drop (0 + length d) o.bytes),
      length-drop (0 + length d) o.bytes,
    ),
    AllBytes-append d (drop (0 + length d) o.bytes) vd.octets
        (AllBytes-drop (0 + length d) o.bytes octets),
    take-append (length d) d (drop (0 + length d) o.bytes) refl,
  )

  -- A read that is not a flush leaves what it gave.
  pub read_socket-Holds :
      (dump : Bool) (reply : RecvReply)
      → Holds p o o
      → IsReply p reply
      → (o' : WifiObject) × (events : List Event) × (read_socket dump reply o
          ≡ some (reply_return reply, o', events))
        × Holds p o o'
        × (take o'.size o'.bytes ≡ reply_bytes reply)
  read_socket-Holds dump (recv_failed e) v vr =
      (record o { size = 0 }, [], refl, ground (arith, v), refl)
  read_socket-Holds dump (received []) v vr =
      (record o { size = 0 }, [], refl, ground (arith, v), refl)
  read_socket-Holds dump (received (b ∷ bs)) v vr =
      let (bytes, wrote, len, octets, put) = recv_into-bytes (b ∷ bs) v.allocated v.octets vr in
      (
        record o {
          bytes = bytes;
          size = length (b ∷ bs);
          bw_current = add_u32 o.bw_current (length (b ∷ bs));
          recv_is_flushed = false;
        },
        if dump then dumped data_received o.buffer (length (b ∷ bs)) ∷ [] else [],
        rw wrote,
        record { same = refl; allocated = len; octets = octets; filled = vr.fits },
        put,
      )

-- A flush changes the buffer's bytes, and may set the flag that it is done.
pub flush_receive_socket-Holds :
    {p : Platform} (o : WifiObject) (stale : List (List ℕ)) (last : FlushEnd)
    → Holds p o o
    → AllDatagrams p stale
    → (o' : WifiObject) × (flush_receive_socket stale last o ≡ some o')
      × Holds p o o'
      × (o'.size ≡ o.size)
unfolding flush_receive_socket
flush_receive_socket-Holds o [] last v vs =
    (flush_last last o, refl, ground (arith, v), ground arith)
flush_receive_socket-Holds o ([] ∷ ds) last v vs =
    (record o { recv_is_flushed = true }, refl, ground (arith, v), refl)
flush_receive_socket-Holds {p} o ((b ∷ bs) ∷ ds) last v vs =
    let (bytes, wrote, len, octets, put) = recv_into-bytes o (b ∷ bs) v.allocated v.octets vs.0 in
    let o1 = record o { bytes = bytes } in
    let v1 : Holds p o1 o1 = record {
      same = refl;
      allocated = len;
      octets = octets;
      filled = v.filled;
    } in
    let (o', ran, v', size) = flush_receive_socket-Holds o1 ds last v1 vs.1 in
    (o', rw (wrote, ran), ground (arith, v'), size)
