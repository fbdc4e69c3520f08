-- ===== src/Wifi/Session/Receiver.antt =====
-- What PopFrame and Receive change of the receiver's connection, and whom they tell.
use lib_arnetwork_al.Prelude.{
  Bool, Bool-cases, List, [], ap, arith, false, if◌then◌else◌, inl, inr, is_neg, not, refl, some,
  true, ℕ, ◌&&◌, ◌++◌, ◌+◌, ◌∙◌, ◌∷◌, ◌≡◌,
}
use lib_arnetwork_al.Platform.{Platform, Timespec}
use lib_arnetwork_al.Frame.{Parsed, Return, bad, empty, got}
use lib_arnetwork_al.Wifi.{Event, Manager, WifiObject, drained, dumped, notified, transmitted}
use lib_arnetwork_al.Wifi.Pop.Refine.{dump_after, receiver_after}
use lib_arnetwork_al.Wifi.Receive.{
  FlushEnd, RecvReply, Replies, SelectReply, first_date, flush_failed, flush_receive_socket,
  is_too_long_without_receive, read_socket, ready, receive, receive_idle, receive_ready,
  receive_select, received, recv_failed, recv_into, select_failed, shut_down,
}
use lib_arnetwork_al.Wifi.Session.{budget, notifications}
use lib_arnetwork_al.Wifi.Session.Links.{Kept, Kept-refl, Kept-trans, Post, Post-bind, Post-elim}

-- A receiver beside its sender: `Linked`, with the budget of both.
pub record ReceiverLinked (s r r' : WifiObject) (events : List Event) : Type 0 where
  pub callback : r'.on_disconnect ≡ r.on_disconnect
  pub socket : r'.socket ≡ r.socket
  pub fifo : r'.fifo_read ≡ r.fifo_read
  pub told : notifications events + budget s r' ≡ budget s r

pub Kept-ReceiverLinked :
    (s r r' : WifiObject) (events : List Event)
    → Kept r r'
    → notifications events ≡ 0
    → ReceiverLinked s r r' events
Kept-ReceiverLinked s r r' events k e = record {
  callback = k.callback;
  socket = k.socket;
  fifo = k.fifo;
  told = ground (arith, k, e);
}

recv_into-Kept :
    (data_read : List ℕ) (r r1 : WifiObject) → recv_into data_read r ≡ some r1 → Kept r r1
recv_into-Kept data_read r r1 e = ground arith

flush_receive_socket-Kept :
    (ds : List (List ℕ)) (last : FlushEnd) (r r1 : WifiObject)
    → Kept r r1
    → Post (Kept r) (flush_receive_socket ds last r1)
unfolding flush_receive_socket
flush_receive_socket-Kept [] shut_down r r1 k = ground (arith, k)
flush_receive_socket-Kept [] (flush_failed e) r r1 k = ground (arith, k)
flush_receive_socket-Kept ([] ∷ ds) last r r1 k = ground (arith, k)
flush_receive_socket-Kept ((b ∷ bs) ∷ ds) last r r1 k =
    Post-bind (Kept r) (recv_into (b ∷ bs) r1) _ (λ r2 e.
      flush_receive_socket-Kept ds last r r2 (Kept-trans k (recv_into-Kept (b ∷ bs) r1 r2 e)))

-- A part of Receive that tells nobody.
abbrev pub Quiet : WifiObject → Return × WifiObject × List Event → Type 0
Quiet r (code, r', events) = Kept r r' × (notifications events ≡ 0)

read_socket-Quiet :
    (r : WifiObject) (dump : Bool) (reply : RecvReply) → Post (Quiet r) (read_socket dump reply r)
read_socket-Quiet r dump (received []) = (ground arith, refl)
read_socket-Quiet r dump (received (b ∷ bs)) = Post-bind (Quiet r) (recv_into (b ∷ bs) r) _ (λ r1 e.
    (
      let k = recv_into-Kept (b ∷ bs) r r1 e in
          record {
            disconnected = k.disconnected;
            callback = k.callback;
            socket = k.socket;
            fifo = k.fifo;
          },
      ground arith,
    ))
read_socket-Quiet r dump (recv_failed e) = (ground arith, refl)

receive_ready-Quiet :
    (p : Platform) (env : Replies) (dump : Bool) (r : WifiObject)
    → Post (Quiet r) (receive_ready p env dump r)
unfolding receive_ready
receive_ready-Quiet p env dump r =
    elim (Bool-cases (not r.recv_is_flushed && is_too_long_without_receive p env.at_check r)) [
      | inl old ↦ rw old (
          Post-bind (Quiet r) (flush_receive_socket env.stale env.last r) _ (λ r1 e. (
            Post-elim (Kept r) _ r1 e
                (flush_receive_socket-Kept env.stale env.last r r (Kept-refl r)),
            refl,
          )))
      | inr fresh ↦ rw fresh (
          Post-bind (Quiet r) (read_socket dump env.recv r) _ (λ out e.
            let (k, told) = Post-elim (Quiet r) _ out e (read_socket-Quiet r dump env.recv) in
            (ground (arith, k), told)))
    ]

-- A receiver behind a part of Receive, and the events of that part.
abbrev pub Behind : WifiObject → WifiObject → Return × WifiObject × List Event → Type 0
Behind s r (code, r', events) = ReceiverLinked s r r' events

receive_idle-Behind :
    (p : Platform) (env : Replies) (fifo : Bool) (s r : WifiObject) (callback : ℕ)
    → r.on_disconnect ≡ some callback
    → Behind s r (receive_idle p env fifo (some s) r)
unfolding receive_idle
receive_idle-Behind p env fifo s r callback tells =
    elim (Bool-cases
      ((not r.is_disconnected && not fifo) && is_too_long_without_receive p env.at_check r)) [
        | inl lost ↦ rw lost (record {
          callback = refl;
          socket = refl;
          fifo = refl;
          told = ground (arith, lost, tells);
        })
        | inr kept ↦ rw kept (Kept-ReceiverLinked s r _ [] (ground arith) refl)
      ]

first_date-Kept : (now : Timespec) (r : WifiObject) → Kept r (first_date now r)
first_date-Kept now r = ground arith

pub receiver_after-Kept : (o : WifiObject) (r : Parsed) → Kept o (receiver_after o r)
receiver_after-Kept o empty = ground arith
receiver_after-Kept o bad = ground arith
receiver_after-Kept o (got t i s n rest) = ground arith

pub notifications-append :
    (es es' : List Event) → notifications (es ++ es') ≡ notifications es + notifications es'
notifications-append [] es' = omega arith
notifications-append (notified c d ∷ es) es' = omega (arith, notifications-append es es')
notifications-append (dumped t a n ∷ es) es' = notifications-append es es'
notifications-append (transmitted socket bytes ∷ es) es' = notifications-append es es'
notifications-append (drained fifo ∷ es) es' = notifications-append es es'

-- Events that tell nobody, behind the others.
Behind-append :
    (s r r' : WifiObject) (es es' : List Event)
    → ReceiverLinked s r r' es
    → notifications es' ≡ 0
    → ReceiverLinked s r r' (es ++ es')
Behind-append s r r' es es' h e = record {
  callback = h.callback;
  socket = h.socket;
  fifo = h.fifo;
  told = omega (arith, h.told, notifications-append es es', e);
}

receive_select-Behind :
    (p : Platform) (env : Replies) (m : Manager) (s r : WifiObject) (callback : ℕ)
    → m.sender ≡ some s
    → r.on_disconnect ≡ some callback
    → Post (Behind s r) (receive_select p env m r)
unfolding receive_select
receive_select-Behind p env m s r callback at tells = by_select env.select refl
  where
    by_select :
        (reply : SelectReply) → env.select ≡ reply → Post (Behind s r) (receive_select p env m r)
    by_select select_failed e = rw e (Kept-ReceiverLinked s r _ [] (ground arith) refl)
    by_select (ready true fifo) e = rw e (
        Post-bind (Behind s r) (receive_ready p env m.dump_file r) _ (λ out ran.
          let (k, quiet) =
            Post-elim (Quiet r) _ out ran (receive_ready-Quiet p env m.dump_file r) in
          Behind-append s r out.1 out.2 _ (Kept-ReceiverLinked s r out.1 out.2 k quiet)
            (ground arith)))
    by_select (ready false fifo) e =
        rw (e, at)
          (Behind-append s r _ _ _ (receive_idle-Behind p env fifo s r callback tells)
            (ground arith))

-- What PopFrame and Receive do to the receiver.
abbrev pub ReceiverStep : WifiObject → WifiObject → Manager → List Event → Type 0
ReceiverStep s r m events =
    (r' : WifiObject) × (m.receiver ≡ some r') × ReceiverLinked s r r' events

pub receive-Linked :
    (p : Platform) (env : Replies) (m : Manager) (s r : WifiObject) (callback : ℕ)
    → m.sender ≡ some s
    → m.receiver ≡ some r
    → r.on_disconnect ≡ some callback
    → is_neg r.socket ≡ false
    → is_neg r.fifo_read ≡ false
    → Post (λ out. ReceiverStep s r out.1 out.2) (receive p env m)
unfolding receive
receive-Linked p env m s r callback at_s at_r tells open_socket open_fifo =
    let r0 = first_date env.at_start r in
    let k = first_date-Kept env.at_start r in
    rw (at_r, open_socket, open_fifo)
      (Post-bind (λ out. ReceiverStep s r out.1 out.2) (receive_select p env m r0) _
        (λ out ran.
          let h =
            Post-elim (Behind s r0) _ out ran
              (receive_select-Behind p env m s r0 callback at_s (k.callback ∙ tells)) in
          (
            record out.1 { current_frame = out.1.buffer },
            refl,
            record {
              callback = h.callback ∙ k.callback;
              socket = h.socket ∙ k.socket;
              fifo = h.fifo ∙ k.fifo;
              told =
                  h.told ∙ ap (λ d. if not s.is_disconnected && not d then 1 else 0) k.disconnected;
            },
          )))

pub dump_after-quiet :
    (dump : Bool) (o : WifiObject) (r : Parsed) → notifications (dump_after dump o r) ≡ 0
dump_after-quiet dump o empty = refl
dump_after-quiet dump o bad = refl
dump_after-quiet dump o (got t i s n rest) = ground arith
