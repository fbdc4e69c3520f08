-- ===== src/Tests/WifiSessions.antt =====
-- WiFi: calls in sequence, and the bandwidth measure.
use lib_arnetwork_al.Prelude.{List, [], arith, refl, some, true, ℕ, ◌∷◌, ◌≡◌}
use lib_arnetwork_al.Platform.{eacces, read_bytes}
use lib_arnetwork_al.Errors.{ok}
use lib_arnetwork_al.Wifi.{WifiObject}
use lib_arnetwork_al.Wifi.Push.{queued}
use lib_arnetwork_al.Wifi.Send.{send_failed}
use lib_arnetwork_al.Wifi.Session.{AllCalls, Call, pop, push, receive_next, run, send_all}
use lib_arnetwork_al.Wifi.Session.Run.{IsReady, Runs, run-Runs}
use lib_arnetwork_al.Wifi.Session.Threads.{receiving, received_part, sending, sent_part, view}
use lib_arnetwork_al.Wifi.Session.Threads.Alone.{run-threads}
use lib_arnetwork_al.Wifi.Send.Refine.{transmissions}
use lib_arnetwork_al.Wifi.{Event, Manager}
use lib_arnetwork_al.Wifi.Bandwidth.{bandwidth_loop, get_bandwidth}
use lib_arnetwork_al.Wifi.Bandwidth.Window.{IsMeter}
use lib_arnetwork_al.Wifi.Bandwidth.Average.{get_bandwidth_refines, timed_out}
use lib_arnetwork_al.Tests.Data.{
  platform, platform-IsPlatform, fresh, fresh-IsSender, fresh-IsReceiver, manager, caller, replies,
  replies-AreReplies, first_frame, no_frame,
}

manager-IsReady : IsReady platform manager
manager-IsReady = record {
  sender_object = fresh;
  receiver_object = fresh;
  at_sender = refl;
  at_receiver = refl;
  session = record {
    sender_valid = fresh-IsSender;
    receiver_valid = fresh-IsReceiver;
    socket_open = refl;
    fifo_open = refl;
    sender_callback = 7;
    sender_tells = refl;
    receiver_callback = 7;
    receiver_tells = refl;
  };
}

-- A frame that the network refuses twice, and one that is received and popped meanwhile.
abbrev calls : List Call
calls =
    push caller (queued 0) first_frame
    ∷ receive_next replies
    ∷ send_all (send_failed eacces)
    ∷ pop no_frame
    ∷ send_all (send_failed eacces)
    ∷ []

calls-AllCalls : AllCalls platform calls
unfolding read_bytes
calls-AllCalls = ((7 ∷ 8 ∷ [], refl, omega arith, refl), (replies-AreReplies, (tt, (tt, (tt, tt)))))

run-Runs_example : Runs platform (run platform calls manager) 1
unfolding manager-IsReady
run-Runs_example = run-Runs calls manager platform-IsPlatform manager-IsReady calls-AllCalls

run-threads_example :
    (m' : Manager) × (es : List Event) × (run platform calls manager ≡ some (m', es))
    × (view sent_part (run platform (sending calls) manager) ≡ some (m'.sender, transmissions es))
    × (view received_part (run platform (receiving calls) manager) ≡ some m'.receiver)
run-threads_example = run-threads calls manager platform-IsPlatform manager-IsReady calls-AllCalls

-- Two periods, of 150 and 40 bytes sent, and of 20 and 1000 received.
abbrev periods : List (List ℕ × List ℕ)
periods = (100 ∷ 50 ∷ [], 20 ∷ []) ∷ (40 ∷ [], 1000 ∷ []) ∷ []

fresh-IsMeter : IsMeter fresh
fresh-IsMeter = record { whole = refl; inside = omega arith }

get_bandwidth_refines_example :
    (s' r' : WifiObject) × (bandwidth_loop (timed_out periods) fresh fresh ≡ some (s', r'))
    × IsMeter s'
    × IsMeter r'
    × (get_bandwidth (some (record manager { sender = some s'; receiver = some r' })) true true
        ≡ (ok, some 19, some 102))
get_bandwidth_refines_example =
    get_bandwidth_refines periods manager fresh fresh true true fresh-IsMeter fresh-IsMeter
      (omega arith) (omega arith)
