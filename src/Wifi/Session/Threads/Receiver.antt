-- ===== src/Wifi/Session/Threads/Receiver.antt =====
-- PopFrame and Receive of Sources/Wifi/ARNETWORKAL_WifiNetwork.c do not depend on the sender for what
-- they make of the receiver.
use lib_arnetwork_al.Prelude.{
  Bool, List, Option, [], add_word, ap, false, is_neg, ltb, none, not, refl, some, sub_word, sym,
  true, ◌&&◌, ◌++◌, ◌>>=◌, ◌||◌, ◌∙◌, ◌∷◌, ◌≡◌,
}
use lib_arnetwork_al.Platform.{Platform}
use lib_arnetwork_al.Frame.{Frame, Return, header_size}
use lib_arnetwork_al.Wifi.{Event, Manager, WifiObject}
use lib_arnetwork_al.Wifi.Pop.{pop_frame, read_header}
use lib_arnetwork_al.Wifi.Receive.{
  RecvReply, Replies, SelectReply, first_date, is_too_long_without_receive, read_socket, ready,
  receive, receive_idle, receive_ready, receive_select, received, recv_failed, recv_into,
  select_failed,
}
use lib_arnetwork_al.Wifi.Session.{call, pop, receive_next}
use lib_arnetwork_al.Wifi.Session.Threads.{bind-same, if-same, looked, received_part, view}

-- PopFrame and Receive do not look at the sender, but to tell of a disconnection.
pub pop-received :
    (p : Platform) (f : Frame) (s s' r : Option WifiObject) (d d' : Bool)
    → view received_part (call p (record { sender = s; receiver = r; dump_file = d }) (pop f))
      ≡ view received_part (call p (record { sender = s'; receiver = r; dump_file = d' }) (pop f))
unfolding call pop_frame
pop-received p f s s' none d d' = refl
pop-received p f s s' (some o) d d' =
    let end = add_word o.buffer o.size in
    let look = λ (out : Option (Return × Manager × Frame × List Event)).
      view received_part (out >>= λ (r, m', f', es). some (m', es)) in
    if-same look (ltb (sub_word end header_size) o.current_frame) _ _ _ _ refl (
      bind-same look (read_header p o f) _ _ refl (λ (f', o').
        if-same look (ltb (sub_word end (sub_word f'.size header_size)) o'.current_frame) _ _ _ _
          refl refl))

-- The object that a part of Receive gives, with what follows it.
abbrev object_of : List Event → Option (Return × WifiObject × List Event) → Option WifiObject
object_of tail out = (out >>= λ (r, o', es). some (r, o', es ++ tail)) >>= λ (r, o', es). some o'

read_socket-same :
    (recv : RecvReply) (o : WifiObject) (d d' : Bool) (next : WifiObject → WifiObject)
    (tail : List Event)
    → object_of tail (read_socket d recv o >>= λ (r, o', es). some (r, next o', es))
      ≡ object_of tail (read_socket d' recv o >>= λ (r, o', es). some (r, next o', es))
read_socket-same (received []) o d d' next tail = refl
read_socket-same (received (b ∷ bs)) o d d' next tail =
    bind-same
      (λ (out : Option (Return × WifiObject × List Event)).
        object_of tail (out >>= λ (r, o', es). some (r, next o', es)))
      (recv_into (b ∷ bs) o) _ _ refl (λ o'. refl)
read_socket-same (recv_failed e) o d d' next tail = refl

receive_idle-same :
    (p : Platform) (env : Replies) (fifo : Bool) (s s' : Option WifiObject) (o : WifiObject)
    → (receive_idle p env fifo s o).1 ≡ (receive_idle p env fifo s' o).1
unfolding receive_idle
receive_idle-same p env fifo s s' o =
    if-same (λ (x : Return × WifiObject × List Event). x.1)
      ((not o.is_disconnected && not fifo) && is_too_long_without_receive p env.at_check o) _ _ _ _
      refl refl

receive_ready-same :
    (p : Platform) (env : Replies) (d d' : Bool) (o : WifiObject) (tail : List Event)
    → object_of tail (receive_ready p env d o) ≡ object_of tail (receive_ready p env d' o)
unfolding receive_ready
receive_ready-same p env d d' o tail =
    if-same (object_of tail) (not o.recv_is_flushed && is_too_long_without_receive p env.at_check o)
      _ _ _ _ refl (read_socket-same env.recv o d d' _ tail)

-- What is looked at of Receive, behind `select`.
abbrev received_of : Option (Return × WifiObject × List Event) → Option WifiObject
received_of out = out >>= λ (r, o', es). some o'

receive_select-same :
    (select : SelectReply) (p : Platform) (env : Replies) (m m' : Manager) (o : WifiObject)
    → received_of (receive_select p (record env { select = select }) m o)
      ≡ received_of (receive_select p (record env { select = select }) m' o)
unfolding receive_select
receive_select-same select_failed p env m m' o = refl
receive_select-same (ready false fifo) p env m m' o =
    ap some
      (receive_idle-same p (record env { select = ready false fifo }) fifo m.sender m'.sender o)
receive_select-same (ready true fifo) p env m m' o =
    receive_ready-same p (record env { select = ready true fifo }) m.dump_file m'.dump_file o _

-- Only the object goes into what Receive leaves of the receiver.
receive_end :
    (s : Option WifiObject) (d : Bool) (out : Option (Return × WifiObject × List Event))
    → looked received_part (
        out >>= λ (r, o', es). some (
          r,
          record {
            sender = s;
            receiver = some (record o' { current_frame = o'.buffer });
            dump_file = d;
          },
          es,
        ))
      ≡ (received_of out >>= λ o'. some (some (record o' { current_frame = o'.buffer })))
receive_end s d none = refl
receive_end s d (some x) = refl

pub receive-received :
    (p : Platform) (env : Replies) (s s' r : Option WifiObject) (d d' : Bool)
    → view received_part
        (call p (record { sender = s; receiver = r; dump_file = d }) (receive_next env))
      ≡ view received_part
          (call p (record { sender = s'; receiver = r; dump_file = d' }) (receive_next env))
unfolding call receive
receive-received p env s s' none d d' = refl
receive-received p env s s' (some o) d d' =
    let m : Manager = record { sender = s; receiver = some o; dump_file = d } in
    let m' : Manager = record { sender = s'; receiver = some o; dump_file = d' } in
    let start : WifiObject = first_date env.at_start o in
    if-same (λ out. looked received_part out) (is_neg o.socket || is_neg o.fifo_read) _ _ _ _ refl
      (receive_end s d (receive_select p env m start)
        ∙ (ap
              (λ (x : Option WifiObject).
                x >>= λ o'. some (some (record o' { current_frame = o'.buffer })))
              (receive_select-same env.select p env m m' start)
            ∙ sym (receive_end s' d' (receive_select p env m' start))))
