-- ===== src/Wifi/Receive/Refine.antt =====
-- ARNETWORKAL_WifiNetwork_Receive on a valid receiver: its result, and what PopFrame will find.
use lib_arnetwork_al.Prelude.{
  ℕ, ◌-◌, ◌≡◌, refl, ap, ◌∙◌, Bool, true, false, not, ◌&&◌, ◌==◌, some, List, [], ◌∷◌, ◌++◌, inl,
  inr, Bool-cases, arith, take, drop, is_neg, if◌then◌else◌,
}
use lib_arnetwork_al.Platform.{Platform, Timespec}
use lib_arnetwork_al.Frame.{Return, default, no_data_available, network_error}
use lib_arnetwork_al.Wifi.{WifiObject, Manager, Event, IsReceiver, IsBuffer, unread, drained}
use lib_arnetwork_al.Wifi.Receive.{
  SelectReply, select_failed, ready, Replies, is_too_long_without_receive, receive_ready,
  receive_idle, first_date, receive_select, receive,
}
use lib_arnetwork_al.Wifi.Receive.Content.{
  AllDatagrams, IsReply, reply_bytes, reply_return, Holds, read_socket-Holds,
  flush_receive_socket-Holds,
}

-- The system's answers respect the room that they are given.
pub record AreReplies (p : Platform) (env : Replies) : Type 0 where
  pub reply : IsReply p env.recv
  pub stale : AllDatagrams p env.stale

-- Whether a ready socket is flushed.
abbrev pub flushes : Platform → Replies → WifiObject → Bool
flushes p env o = not o.recv_is_flushed && is_too_long_without_receive p env.at_check o

-- A result, and the bytes that are left to pop.
abbrev pub Leaves : Return → WifiObject → Return × List ℕ → Type 0
Leaves r o spec = (r ≡ spec.0) × (take o.size o.bytes ≡ spec.1)

-- On a ready socket: a flush leaves the size as it was, a read gives its own bytes.
abbrev pub ready_result : Platform → Replies → WifiObject → (bytes : List ℕ) → Return × List ℕ
ready_result p env o bytes =
    if flushes p env o
    then (default, take o.size bytes)
    else (reply_return env.recv, reply_bytes env.recv)

-- The result of a call, and the bytes that it leaves to pop, where `bytes` is what the buffer holds
-- behind it.
abbrev pub read_result : Platform → Replies → WifiObject → (bytes : List ℕ) → Return × List ℕ
read_result p env o bytes = elim env.select [
  | select_failed ↦ (network_error, [])
  | ready socket fifo ↦ if socket then ready_result p env o bytes else (no_data_available, [])
]

first_date-Holds :
    {p : Platform} (now : Timespec) (o : WifiObject)
    → IsBuffer p o
    → Holds p (first_date now o) (first_date now o) × ((first_date now o).buffer ≡ o.buffer)
first_date-Holds now o v =
    elim (Bool-cases
      (o.last_data_received_date.tv_sec == 0 && o.last_data_received_date.tv_nsec == 0)) [
        | inl unset ↦ rw unset (
          record { same = refl; allocated = v.allocated; octets = v.octets; filled = v.filled },
          refl,
        )
        | inr set ↦ rw set (
          record { same = refl; allocated = v.allocated; octets = v.octets; filled = v.filled },
          refl,
        )
      ]

module _ {p : Platform} (env : Replies) (o : WifiObject) (v : Holds p o o)
    (ve : AreReplies p env) where
  -- The branch where the socket is ready.
  receive_ready-Holds :
      (dump : Bool)
      → (r : Return) × (o' : WifiObject) × (events : List Event) × (receive_ready p env dump o
          ≡ some (r, o', events))
        × Holds p o o'
        × Leaves r o' (ready_result p env o o'.bytes)
  unfolding receive_ready
  receive_ready-Holds dump = elim (Bool-cases (flushes p env o)) [
    | inl old ↦
        let (o', ran, held, size) = flush_receive_socket-Holds o env.stale env.last v ve.stale in
        (default, o', [], rw (old, ran), held, rw old (refl, ap (λ k. take k o'.bytes) size))
    | inr fresh ↦
        let (o', events, ran, held, content) = read_socket-Holds o dump env.recv v ve.reply in
        (
          reply_return env.recv,
          (if is_too_long_without_receive p env.after_recv o'
              then o'
              else record o' { last_data_received_date = env.at_save }),
          events,
          rw (fresh, ran),
          ground (arith, held),
          rw fresh (refl, ground (arith, content)),
        )
  ]

  -- All that follows `select`.
  receive_select-Holds :
      (m : Manager)
      → (r : Return) × (o' : WifiObject) × (events : List Event) × (receive_select p env m o
          ≡ some (r, o', events))
        × Holds p o o'
        × Leaves r o' (read_result p env o o'.bytes)
  unfolding receive_select
  receive_select-Holds m = by_select env.select refl
    where
      by_select :
          (s : SelectReply)
          → env.select ≡ s
          → (r : Return) × (o' : WifiObject) × (events : List Event) × (receive_select p env m o
              ≡ some (r, o', events))
            × Holds p o o'
            × Leaves r o' (read_result p env o o'.bytes)
      by_select select_failed e = (
        network_error,
        record o { size = 0 },
        [],
        rw (e, receive_select),
        ground (arith, v),
        rw e (refl, refl),
      )
      by_select (ready true fifo) e =
          let (r, o', events, ran, held, content) = receive_ready-Holds m.dump_file in
          (
            r,
            o',
            events ++ (if fifo then drained o.fifo_read ∷ [] else []),
            rw (e, ran),
            held,
            rw e content,
          )
      by_select (ready false fifo) e =
          let (r, o', events) = receive_idle p env fifo m.sender o in
          (
            r,
            o',
            events ++ (if fifo then drained o.fifo_read ∷ [] else []),
            rw e,
            ground (arith, v),
            rw e (ground arith, ground arith),
          )

-- On a receiver whose buffer is allocated and whose descriptors are open, a call of Receive returns,
-- changes only the receiver, and leaves it valid. Its result and the bytes that PopFrame will find are those of
-- `read_result`: nothing after a failed `select` or where the socket is not ready, the datagram that
-- was read where it is, and after a flush the first `size` bytes of the buffer, with the size that
-- the last call left.
pub receive_refines :
    {p : Platform} (env : Replies) (m : Manager) (o : WifiObject)
    → IsBuffer p o
    → AreReplies p env
    → m.receiver ≡ some o
    → is_neg o.socket ≡ false
    → is_neg o.fifo_read ≡ false
    → (r : Return) × (o' : WifiObject) × (events : List Event) × (receive p env m
        ≡ some (r, record m { receiver = some o' }, events))
      × IsReceiver p o'
      × (r ≡ (read_result p env (first_date env.at_start o) o'.bytes).0)
      × (unread o' ≡ (read_result p env (first_date env.at_start o) o'.bytes).1)
unfolding receive
receive_refines {p} env m o v ve at open_socket open_fifo =
    let (start, placed) = first_date-Holds env.at_start o v in
    let (r, o', events, ran, held, (code, content)) =
      receive_select-Holds env (first_date env.at_start o) start ve m in
    let kept : o'.buffer ≡ o.buffer = held.same ∙ placed in
    (
      r,
      record o' { current_frame = o'.buffer },
      events,
      simp (at, open_socket, open_fifo, ran),
      record {
        allocated = held.allocated;
        above = omega (arith, v, kept);
        placed = omega (arith, v, kept);
        filled = held.filled;
        from = omega arith;
        to = omega arith;
        octets = held.octets;
      },
      code,
      ap (λ k. drop k (take o'.size o'.bytes)) {x = o'.buffer - o'.buffer} {y = 0} (omega arith)
          ∙ content,
    )
