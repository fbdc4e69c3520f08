-- ===== src/Wifi/Session/Threads/Quiet.antt =====
-- PopFrame and Receive of Sources/Wifi/ARNETWORKAL_WifiNetwork.c leave the sender, and hand nothing to
-- the socket.
use lib_arnetwork_al.Prelude.{
  Bool, List, Option, [], add_word, false, if◌then◌else◌, is_neg, ltb, not, refl, sub_word, true, ℤ,
  ◌&&◌, ◌++◌, ◌||◌, ◌∷◌,
}
use lib_arnetwork_al.Platform.{Platform}
use lib_arnetwork_al.Frame.{Frame, Return, header_size}
use lib_arnetwork_al.Wifi.{Event, Manager, WifiObject, data_received, drained, frame_popped}
use lib_arnetwork_al.Wifi.Pop.{pop_frame, read_header}
use lib_arnetwork_al.Wifi.Receive.{
  RecvReply, Replies, SelectReply, first_date, flush_receive_socket, is_too_long_without_receive,
  read_socket, ready, receive, receive_idle, receive_ready, receive_select, received, recv_failed,
  recv_into, select_failed,
}
use lib_arnetwork_al.Wifi.Send.Refine.{transmissions-notify}
use lib_arnetwork_al.Wifi.Session.Links.{Post, Post-bind}
use lib_arnetwork_al.Wifi.Session.{call, pop, receive_next}
use lib_arnetwork_al.Wifi.Session.Threads.{
  if-Holds, IsQuiet, KeepsSender, Post-if, Post-map, Post-weaken, append-IsQuiet, dump_quiet,
  if-Holds,
}

pub pop-KeepsSender :
    (p : Platform) (f : Frame) (m : Manager) → Post (KeepsSender m.sender) (call p m (pop f))
unfolding call pop_frame
pop-KeepsSender p f m = Post-map (KeepsSender m.sender) _ (pop_frame p m f) (
    Post-bind _ m.receiver _ (λ o e.
      Post-if (λ (x : Return × Manager × Frame × List Event). KeepsSender m.sender (x.1, x.3))
        (ltb (sub_word (add_word o.buffer o.size) header_size) o.current_frame) _ _ (refl, refl)
        (Post-bind _ (read_header p o f) _ (λ (f', o') e'.
          Post-if (λ (x : Return × Manager × Frame × List Event). KeepsSender m.sender (x.1, x.3))
            (ltb (sub_word (add_word o.buffer o.size) (sub_word f'.size header_size))
              o'.current_frame)
            _ _ (refl, refl) (refl, dump_quiet m.dump_file frame_popped _ _)))))

abbrev QuietPart : Return × WifiObject × List Event → Type 0
QuietPart (r, o', es) = IsQuiet es

read_socket-QuietPart :
    (recv : RecvReply) (o : WifiObject) (d : Bool) → Post QuietPart (read_socket d recv o)
read_socket-QuietPart (received []) o d = refl
read_socket-QuietPart (received (b ∷ bs)) o d =
    Post-bind QuietPart (recv_into (b ∷ bs) o) _ (λ o' e. dump_quiet d data_received o'.buffer _)
read_socket-QuietPart (recv_failed e) o d = refl

-- What is drained from the descriptor behind the end is quiet.
drain-IsQuiet :
    (b : Bool) (fd : ℤ) (es : List Event)
    → IsQuiet es
    → IsQuiet (es ++ (if b then drained fd ∷ [] else []))
drain-IsQuiet true fd es h = append-IsQuiet es (drained fd ∷ []) h refl
drain-IsQuiet false fd es h = append-IsQuiet es [] h refl

receive_idle-IsQuiet :
    (p : Platform) (env : Replies) (fifo : Bool) (s : Option WifiObject) (o : WifiObject)
    → IsQuiet (receive_idle p env fifo s o).2
unfolding receive_idle
receive_idle-IsQuiet p env fifo s o =
    if-Holds (λ (x : Return × WifiObject × List Event). IsQuiet x.2)
      ((not o.is_disconnected && not fifo) && is_too_long_without_receive p env.at_check o) _ _
      (transmissions-notify o s) refl

receive_ready-QuietPart :
    (p : Platform) (env : Replies) (d : Bool) (o : WifiObject)
    → Post QuietPart (receive_ready p env d o)
unfolding receive_ready
receive_ready-QuietPart p env d o =
    Post-if QuietPart (not o.recv_is_flushed && is_too_long_without_receive p env.at_check o) _ _
      (Post-bind QuietPart (flush_receive_socket env.stale env.last o) _ (λ o' e. refl))
      (Post-map QuietPart _ (read_socket d env.recv o) (read_socket-QuietPart env.recv o d))

receive_select-QuietPart :
    (select : SelectReply) (p : Platform) (env : Replies) (m : Manager) (o : WifiObject)
    → Post QuietPart (receive_select p (record env { select = select }) m o)
unfolding receive_select
receive_select-QuietPart select_failed p env m o = refl
receive_select-QuietPart (ready false fifo) p env m o =
    drain-IsQuiet fifo o.fifo_read
      (receive_idle p (record env { select = ready false fifo }) fifo m.sender o).2
      (receive_idle-IsQuiet p (record env { select = ready false fifo }) fifo m.sender o)
receive_select-QuietPart (ready true fifo) p env m o =
    Post-map QuietPart _ (receive_ready p (record env { select = ready true fifo }) m.dump_file o) (
      Post-weaken QuietPart _ _ (λ (r, o', es) h. drain-IsQuiet fifo o.fifo_read es h)
        (receive_ready-QuietPart p (record env { select = ready true fifo }) m.dump_file o))

pub receive-KeepsSender :
    (p : Platform) (env : Replies) (m : Manager)
    → Post (KeepsSender m.sender) (call p m (receive_next env))
unfolding call receive
receive-KeepsSender p env m = Post-map (KeepsSender m.sender) _ (receive p env m) (
    Post-bind _ m.receiver _ (λ o e.
      Post-if (λ (x : Return × Manager × List Event). KeepsSender m.sender (x.1, x.2))
        (is_neg o.socket || is_neg o.fifo_read) _ _ tt
        (Post-map _ _ (receive_select p env m (first_date env.at_start o)) (
          Post-weaken QuietPart _ _ (λ (r, o', es) h. (refl, h))
            (receive_select-QuietPart env.select p env m (first_date env.at_start o))))))
