-- ===== src/Wifi/Send/Refine.antt =====
-- ARNETWORKAL_WifiNetwork_Send on a valid sender: what goes to the socket, and what is left to send.
use lib_arnetwork_al.Prelude.{
  ℕ, ◌≡◌, refl, ap, ◌∙◌, false, Option, some, List, [], ◌∷◌, arith, length, ◌==◌, ==_true, ==_false,
  length-take_of_le, add_u32, if◌then◌else◌,
}
use lib_arnetwork_al.Platform.{
  Platform, Errno, eagain, eacces, enxio, etimedout, other, read_bytes, read_bytes-block,
}
use lib_arnetwork_al.Frame.{Return, default, network_error}
use lib_arnetwork_al.Wifi.{
  WifiObject, Manager, Event, dumped, transmitted, drained, notified, data_sent, notify, IsSender,
  pending, memory,
}
use lib_arnetwork_al.Wifi.Send.{SendReply, sent, send_failed, emptied, send_error, send}

-- What was handed to the socket.
abbrev pub transmissions : List Event → List (List ℕ)
transmissions [] = []
transmissions (transmitted socket bytes ∷ es) = bytes ∷ transmissions es
transmissions (dumped tag a n ∷ es) = transmissions es
transmissions (drained fifo ∷ es) = transmissions es
transmissions (notified c d ∷ es) = transmissions es

-- The result of a send, and the bytes that wait behind it, of those that waited before it.
abbrev pub after_reply : SendReply → List ℕ → Return × List ℕ
after_reply (sent n) queue = (default, [])
after_reply (send_failed eagain) queue = (network_error, [])
after_reply (send_failed eacces) queue = (network_error, queue)
after_reply (send_failed enxio) queue = (network_error, queue)
after_reply (send_failed etimedout) queue = (network_error, queue)
after_reply (send_failed other) queue = (network_error, queue)

-- The queue of bytes that a sender stands for: a send hands all of it over at once, if it is not
-- empty.
abbrev pub flush_queue : SendReply → List ℕ → Return × List ℕ × List (List ℕ)
flush_queue reply [] = (default, [], [])
flush_queue reply (b ∷ bs) = let (r, left) = after_reply reply (b ∷ bs) in (r, left, (b ∷ bs) ∷ [])

pub transmissions-notify :
    (o : WifiObject) (peer : Option WifiObject) → transmissions (notify o peer) ≡ []
transmissions-notify o peer = ground arith

module _ {p : Platform} {o : WifiObject} (v : IsSender p o) where
  emptied-IsSender : IsSender p (emptied o)
  emptied-IsSender = omega (arith, v)

  send_error-IsSender :
      (e : Errno) (receiver : Option WifiObject) → IsSender p (send_error e o receiver).0
  send_error-IsSender e receiver = ground (arith, v)

  send_error-pending :
      (e : Errno) (receiver : Option WifiObject)
      → pending (send_error e o receiver).0 ≡ (after_reply (send_failed e) (pending o)).1
  send_error-pending e receiver = ground arith

  send_error-transmissions :
      (e : Errno) (receiver : Option WifiObject) → transmissions (send_error e o receiver).1 ≡ []
  send_error-transmissions e receiver = ground (arith, transmissions-notify o receiver)

  read_pending : read_bytes (memory o) o.buffer o.size ≡ some (pending o)
  read_pending =
      read_bytes-block o.buffer o.bytes o.buffer 0 o.size (omega arith) (omega (arith, v))

  length-pending : length (pending o) ≡ o.size
  length-pending = length-take_of_le o.size o.bytes (omega (arith, v))

  -- The three parts of a send, where some bytes wait.
  send-some :
      (reply : SendReply) (m : Manager)
      → m.sender ≡ some o
      → (o.size == 0) ≡ false
      → (r : Return) × (o' : WifiObject) × (events : List Event) × (send reply m
          ≡ some (r, record m { sender = some o' }, events))
        × IsSender p o'
        × (r ≡ (after_reply reply (pending o)).0)
        × (pending o' ≡ (after_reply reply (pending o)).1)
        × (transmissions events ≡ pending o ∷ [])
  unfolding send
  send-some (sent n) m at busy = (
    default,
    record (emptied o) { bw_current = add_u32 o.bw_current n },
    transmitted o.socket (pending o)
        ∷ (if m.dump_file then dumped data_sent o.buffer o.size ∷ [] else []),
    simp (at, busy, read_pending),
    omega (arith, v),
    refl,
    refl,
    ground arith,
  )
  send-some (send_failed e) m at busy =
      let (o', events) = send_error e o m.receiver in
      (
        network_error,
        o',
        transmitted o.socket (pending o) ∷ events,
        simp (at, busy, read_pending),
        send_error-IsSender e m.receiver,
        ground arith,
        send_error-pending e m.receiver,
        ap (λ r. pending o ∷ r) (send_error-transmissions e m.receiver),
      )

-- On a valid sender a call of Send returns, changes only the sender, and leaves it valid. If no byte
-- waits it does nothing; else it hands all the bytes that wait to the socket, in one call. They are
-- gone if the socket took them (DEFAULT) or was full (EAGAIN, NETWORK_ERROR), and wait as before
-- after any other error (NETWORK_ERROR).
pub send_refines :
    {p : Platform} (reply : SendReply) (m : Manager) (o : WifiObject)
    → IsSender p o
    → m.sender ≡ some o
    → (r : Return) × (o' : WifiObject) × (events : List Event) × (send reply m
        ≡ some (r, record m { sender = some o' }, events))
      × IsSender p o'
      × (r ≡ (flush_queue reply (pending o)).0)
      × (pending o' ≡ (flush_queue reply (pending o)).1)
      × (transmissions events ≡ (flush_queue reply (pending o)).2)
unfolding send
send_refines {p} reply m o v at = by_queue (pending o) refl
  where
    by_queue :
        (queue : List ℕ)
        → pending o ≡ queue
        → (r : Return) × (o' : WifiObject) × (events : List Event) × (send reply m
            ≡ some (r, record m { sender = some o' }, events))
          × IsSender p o'
          × (r ≡ (flush_queue reply queue).0)
          × (pending o' ≡ (flush_queue reply queue).1)
          × (transmissions events ≡ (flush_queue reply queue).2)
    by_queue [] e = (
      default,
      o,
      [],
      rw (at, ==_true o.size 0 (omega (arith, length-pending v, ap length e))),
      v,
      refl,
      e,
      refl,
    )
    by_queue (b ∷ bs) e =
        let (r, o', events, ran, v', code, left, handed) =
          send-some v reply m at
            (==_false o.size 0 (omega (arith, length-pending v, ap length e))) in
        (
          r,
          o',
          events,
          ran,
          v',
          code ∙ ap (λ q. (after_reply reply q).0) e,
          left ∙ ap (λ q. (after_reply reply q).1) e,
          handed ∙ ap (λ q. q ∷ []) e,
        )
