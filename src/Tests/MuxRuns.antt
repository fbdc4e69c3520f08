-- ===== src/Tests/MuxRuns.antt =====
-- The mux network: a frame carried, and the buffers of some calls.
use lib_arnetwork_al.Prelude.{
  ◌+◌, List, [], arith, false, length, none, pos, refl, replicate, some, ℕ, ◌++◌, ◌∷◌, ◌≡◌, ◌≤◌,
}
use lib_arnetwork_al.Platform.{block, read_bytes}
use lib_arnetwork_al.Frame.{buffer_empty, default}
use lib_arnetwork_al.Frame.Codec.{IsMessage}
use lib_arnetwork_al.Wifi.Transfer.Outgoing.{Carries}
use lib_arnetwork_al.Mux.{
  MuxEvent, MuxObject, PushReplies, RxBuffer, encoded, epipe, got_buffer, mux_pop_frame,
  mux_push_frame, mux_receive, unref_sent,
}
use lib_arnetwork_al.Mux.Transfer.{Accepts, mux_transfer}
use lib_arnetwork_al.Mux.Buffers.{MuxCall, holds, mux_run, pop_call, receive_call, releases}
use lib_arnetwork_al.Mux.Conserve.{mux_run-releases}
use lib_arnetwork_al.Mux.Conserve.Step.{told, untold}
use lib_arnetwork_al.Tests.Data.{
  platform, platform-IsPlatform, caller, first, first_frame, no_frame, first_bytes,
}

abbrev mux : MuxObject
mux = record {
  ctx = 1;
  rxbuf_recv = none;
  rxbuf_pop = none;
  rxqueue = some 2;
  on_disconnect = some 7;
  on_disconnect_custom_data = 70;
  disconnected = false;
}

abbrev accepting : PushReplies
accepting = record {
  new_buffer = some (replicate 9 170);
  get_data = pos 0;
  set_len = pos 0;
  encode_result = pos 0;
}

first-IsMessage : IsMessage first
first-IsMessage = omega arith

first-Carries : Carries caller first_frame first
unfolding read_bytes
first-Carries = record { type = refl; id = refl; seq = refl; size = refl; payload = refl }

accepting-Accepts : Accepts accepting first_frame (replicate 9 170)
accepting-Accepts = record {
  given = refl;
  room = refl;
  got_data = refl;
  length_set = refl;
  sent = refl;
}

mux_transfer_example :
    (mux_push_frame platform caller accepting mux first_frame
      ≡ some (default, mux, encoded 1 first_bytes ∷ unref_sent ∷ []))
    × (r1 : MuxObject) × (released : List MuxEvent) × (mux_receive
          (got_buffer (record { address = 9000; bytes = first_bytes }))
          mux
        ≡ (default, r1, released))
    × (r2 : MuxObject) × (mux_pop_frame platform (pos 0) r1 no_frame
        ≡ some (default, r2, record { type = 2; id = 10; seq = 1; size = 9; data_ptr = 9007 }))
    × (read_bytes (block 9000 first_bytes) 9007 2 ≡ some (7 ∷ 8 ∷ []))
    × (mux_pop_frame platform (pos 0) r2 no_frame ≡ some (buffer_empty, r2, no_frame))
mux_transfer_example =
    mux_transfer platform caller accepting mux mux first_frame no_frame no_frame first
      (replicate 9 170) 9000 2 (pos 0) (pos 0) platform-IsPlatform first-IsMessage first-Carries
      accepting-Accepts refl refl

abbrev small_buffer : ℕ → RxBuffer
small_buffer a = record { address = a; bytes = first_bytes }

-- Two buffers, of which the first is popped, and then the end of the queue.
abbrev mux_calls : List MuxCall
mux_calls =
    receive_call (got_buffer (small_buffer 9000))
    ∷ pop_call (pos 0) no_frame
    ∷ pop_call (pos 0) no_frame
    ∷ receive_call (got_buffer (small_buffer 9100))
    ∷ receive_call epipe
    ∷ receive_call (got_buffer (small_buffer 9200))
    ∷ []

mux_run-releases_example :
    (o' : MuxObject) × (es : List MuxEvent) × (mux_run platform mux_calls mux ≡ some (o', es))
    × (length (holds o') ≤ 1)
    × (releases es ++ holds o' ≡ small_buffer 9000 ∷ small_buffer 9100 ∷ [])
    × (told es + untold o' ≡ 1)
mux_run-releases_example = mux_run-releases platform mux_calls mux 7 (omega arith) refl
