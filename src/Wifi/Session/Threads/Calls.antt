-- ===== src/Wifi/Session/Threads/Calls.antt =====
-- A call of Sources/Wifi/ARNETWORKAL_WifiNetwork.c on two managers that share the object it is about.
use lib_arnetwork_al.Prelude.{ap, sym, ◌∙◌, ◌≡◌}
use lib_arnetwork_al.Platform.{Memory, Platform}
use lib_arnetwork_al.Frame.{Frame}
use lib_arnetwork_al.Wifi.{Manager}
use lib_arnetwork_al.Wifi.Push.{OutQueue, push_frame}
use lib_arnetwork_al.Wifi.Send.{SendReply, send}
use lib_arnetwork_al.Wifi.Receive.{Replies}
use lib_arnetwork_al.Wifi.Session.{call, pop, push, receive_next, send_all}
use lib_arnetwork_al.Wifi.Session.Links.{Post}
use lib_arnetwork_al.Wifi.Session.Threads.{Post-map, looked, received_part, sent_part, view}
use lib_arnetwork_al.Wifi.Session.Threads.Sender.{
  push-KeepsReceiver, push-sent, send-KeepsReceiver, send-sent,
}
use lib_arnetwork_al.Wifi.Session.Threads.Receiver.{pop-received, receive-received}

-- The same call on a manager with the same sender, and on one with the same receiver.
pub push-alone :
    (p : Platform) (mem : Memory) (reply : OutQueue) (f : Frame) (m m2 : Manager)
    → m2.sender ≡ m.sender
    → view sent_part (call p m (push mem reply f)) ≡ view sent_part (call p m2 (push mem reply f))
unfolding call
push-alone p mem reply f m m2 e =
    push-sent p mem reply f m.sender m.receiver m2.receiver m.dump_file m2.dump_file
    ∙ ap (λ s. looked sent_part (push_frame p mem reply (record m2 { sender = s }) f)) (sym e)

pub send-alone :
    (p : Platform) (reply : SendReply) (m m2 : Manager)
    → m2.sender ≡ m.sender
    → view sent_part (call p m (send_all reply)) ≡ view sent_part (call p m2 (send_all reply))
unfolding call
send-alone p reply m m2 e =
    send-sent reply m.sender m.receiver m2.receiver m.dump_file m2.dump_file
    ∙ ap (λ s. looked sent_part (send reply (record m2 { sender = s }))) (sym e)

pub pop-alone :
    (p : Platform) (f : Frame) (m m2 : Manager)
    → m2.receiver ≡ m.receiver
    → view received_part (call p m (pop f)) ≡ view received_part (call p m2 (pop f))
pop-alone p f m m2 e =
    pop-received p f m.sender m2.sender m.receiver m.dump_file m2.dump_file
    ∙ ap (λ r. view received_part (call p (record m2 { receiver = r }) (pop f))) (sym e)

pub receive-alone :
    (p : Platform) (env : Replies) (m m2 : Manager)
    → m2.receiver ≡ m.receiver
    → view received_part (call p m (receive_next env))
      ≡ view received_part (call p m2 (receive_next env))
receive-alone p env m m2 e =
    receive-received p env m.sender m2.sender m.receiver m.dump_file m2.dump_file
    ∙ ap (λ r. view received_part (call p (record m2 { receiver = r }) (receive_next env))) (sym e)

-- A call of the other thread, between.
pub push_call-keeps :
    (p : Platform) (mem : Memory) (reply : OutQueue) (f : Frame) (m : Manager)
    → Post (λ x. x.0.receiver ≡ m.receiver) (call p m (push mem reply f))
unfolding call
push_call-keeps p mem reply f m =
    Post-map _ _ (push_frame p mem reply m f) (push-KeepsReceiver p mem reply f m)

pub send_call-keeps :
    (p : Platform) (reply : SendReply) (m : Manager)
    → Post (λ x. x.0.receiver ≡ m.receiver) (call p m (send_all reply))
unfolding call
send_call-keeps p reply m = Post-map _ _ (send reply m) (send-KeepsReceiver reply m)
