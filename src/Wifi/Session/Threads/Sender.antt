-- ===== src/Wifi/Session/Threads/Sender.antt =====
-- PushFrame and Send of Sources/Wifi/ARNETWORKAL_WifiNetwork.c do not depend on the receiver, nor
-- change it.
use mathlib.Core.Path.{ap₂}
use lib_arnetwork_al.Prelude.{
  Bool, Option, add_u32, ap, arith, ltb, none, refl, some, sub_word, sym, ◌==◌, ◌∙◌, ◌∷◌, ◌≡◌,
}
use lib_arnetwork_al.Platform.{Errno, Memory, Platform, read_bytes}
use lib_arnetwork_al.Frame.{Frame}
use lib_arnetwork_al.Wifi.{
  Manager, WifiObject, data_sent, frame_pushed, memory, sending_buffer_size,
}
use lib_arnetwork_al.Wifi.Send.{SendReply, emptied, send, send_error, send_failed, sent}
use lib_arnetwork_al.Wifi.Push.{OutQueue, copy_frame, get_available_send_size, is_short, push_frame}
use lib_arnetwork_al.Wifi.Send.Refine.{transmissions, transmissions-notify}
use lib_arnetwork_al.Wifi.Session.Links.{Post, Post-bind}
use lib_arnetwork_al.Wifi.Session.Threads.{
  KeepsReceiver, Post-if, bind-same, dump_quiet, if-same, looked, sent_part,
}

pub push-KeepsReceiver :
    (p : Platform) (mem : Memory) (reply : OutQueue) (f : Frame) (m : Manager)
    → Post (KeepsReceiver m.receiver) (push_frame p mem reply m f)
unfolding push_frame
push-KeepsReceiver p mem reply f m = Post-bind _ m.sender _ (λ o e.
    Post-if _ (ltb (sending_buffer_size p) (add_u32 o.size f.size)) _ _ refl (
      Post-if _ (is_short (get_available_send_size reply o).0 (add_u32 o.size f.size)) _ _ refl
        (Post-bind _ (copy_frame p mem f (get_available_send_size reply o).1) _ (λ o' e'. refl))))

pub send-KeepsReceiver :
    (reply : SendReply) (m : Manager) → Post (KeepsReceiver m.receiver) (send reply m)
unfolding send
send-KeepsReceiver (sent n) m = Post-bind _ m.sender _ (λ o e.
    Post-if _ (o.size == 0) _ _ refl
      (Post-bind _ (read_bytes (memory o) o.buffer o.size) _ (λ bytes e'. refl)))
send-KeepsReceiver (send_failed x) m = Post-bind _ m.sender _ (λ o e.
    Post-if _ (o.size == 0) _ _ refl
      (Post-bind _ (read_bytes (memory o) o.buffer o.size) _ (λ bytes e'. refl)))

pub push-sent :
    (p : Platform) (mem : Memory) (reply : OutQueue) (f : Frame) (s r r' : Option WifiObject)
    (d d' : Bool)
    → looked sent_part
        (push_frame p mem reply (record { sender = s; receiver = r; dump_file = d }) f)
      ≡ looked sent_part
          (push_frame p mem reply (record { sender = s; receiver = r'; dump_file = d' }) f)
unfolding push_frame
push-sent p mem reply f none r r' d d' = refl
push-sent p mem reply f (some o) r r' d d' =
    let kept : WifiObject = (get_available_send_size reply o).1 in
    if-same (looked sent_part) (ltb (sending_buffer_size p) (add_u32 o.size f.size)) _ _ _ _ refl (
      if-same (looked sent_part)
        (is_short (get_available_send_size reply o).0 (add_u32 o.size f.size)) _ _ _ _ refl
        (bind-same (looked sent_part) (copy_frame p mem f kept) _ _ refl (λ o'.
          ap (λ t. some (some o', t))
            (dump_quiet d frame_pushed (sub_word o'.current_frame f.size) f.size
              ∙ sym (dump_quiet d' frame_pushed (sub_word o'.current_frame f.size) f.size)))))

send_error-same :
    (e : Errno) (o : WifiObject) (r r' : Option WifiObject)
    → ((send_error e o r).0 ≡ (send_error e o r').0)
      × (transmissions (send_error e o r).1 ≡ transmissions (send_error e o r').1)
send_error-same e o r r' =
    (ground arith, ground (arith, transmissions-notify o r, transmissions-notify o r'))

pub send-sent :
    (reply : SendReply) (s r r' : Option WifiObject) (d d' : Bool)
    → looked sent_part (send reply (record { sender = s; receiver = r; dump_file = d }))
      ≡ looked sent_part (send reply (record { sender = s; receiver = r'; dump_file = d' }))
unfolding send
send-sent reply none r r' d d' = refl
send-sent (sent n) (some o) r r' d d' = if-same (looked sent_part) (o.size == 0) _ _ _ _ refl (
    bind-same (looked sent_part) (read_bytes (memory o) o.buffer o.size) _ _ refl (λ bytes.
      ap (λ t. some (some (record (emptied o) { bw_current = add_u32 o.bw_current n }), bytes ∷ t))
        (dump_quiet d data_sent o.buffer o.size ∙ sym (dump_quiet d' data_sent o.buffer o.size))))
send-sent (send_failed e) (some o) r r' d d' =
    if-same (looked sent_part) (o.size == 0) _ _ _ _ refl (
      bind-same (looked sent_part) (read_bytes (memory o) o.buffer o.size) _ _ refl (λ bytes.
        let (object, quiet) = send_error-same e o r r' in
        ap₂ (λ x t. some (some x, bytes ∷ t)) object quiet))
