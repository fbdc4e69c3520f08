-- ===== src/Wifi/Lifecycle/Setup/Objects.antt =====
-- The objects of a manager behind New, Connect, Bind and SetOnDisconnectCallback.
use lib_arnetwork_al.Prelude.{
  AllBytes, Option, false, is_neg, length, none, refl, some, u32_mod, word_mod, ℕ, ℤ, ◌+◌, ◌<◌, ◌≡◌,
  ◌≤◌,
}
use lib_arnetwork_al.Platform.{Platform}
use lib_arnetwork_al.Errors.{Error, ok}
use lib_arnetwork_al.Wifi.{Manager, WifiObject, receiving_buffer_size, sending_buffer_size}
use lib_arnetwork_al.Wifi.Lifecycle.{
  Allocation, Mallocs, SetupReplies, bind, connect, give_receiver_buffer, give_sender_buffer,
  init_object, new, open_descriptors, set_on_disconnect_callback, to_u32,
}

-- The calls of `malloc` give blocks of the sizes that they are asked for, in the address space; the
-- receiver's lies above its first 4 GiB.
pub record AreMallocs (p : Platform) (ms : Mallocs) (so ro : WifiObject) (sb rb : Allocation)
    : Type 0 where
  pub sender_object_given : ms.sender_object ≡ some so
  pub sender_buffer_given : ms.sender_buffer ≡ some sb
  pub receiver_object_given : ms.receiver_object ≡ some ro
  pub receiver_buffer_given : ms.receiver_buffer ≡ some rb
  pub sender_size : length sb.contents ≡ sending_buffer_size p
  pub sender_placed : sb.address + sending_buffer_size p < word_mod
  pub receiver_size : length rb.contents ≡ receiving_buffer_size p
  pub receiver_above : u32_mod ≤ rb.address
  pub receiver_placed : rb.address + receiving_buffer_size p + u32_mod < word_mod
  pub receiver_octets : AllBytes rb.contents

-- The socket and the pipe are made, and `connect` or `bind` succeeds.
pub record AreOpened (env : SetupReplies) (read_end write_end : ℤ) : Type 0 where
  pub socket_open : is_neg env.socket_created ≡ false
  pub pipe_made : env.pipe ≡ some (read_end, write_end)
  pub pipe_open : is_neg read_end ≡ false
  pub attached : env.attach_failed ≡ none

-- New, Connect, Bind and SetOnDisconnectCallback, one behind the other, with their results.
abbrev pub set_up :
    Mallocs
    → SetupReplies
    → SetupReplies
    → (timeout_sec : ℤ) → (callback custom_data : ℕ) → Manager
    → (Error × Error × Error × Error) × Option Manager
set_up ms env_s env_r timeout_sec callback custom_data m =
    let (e1, m1) = new ms (some m) in
    let (e2, m2) = connect env_s m1 in
    let (e3, m3) = bind env_r timeout_sec m2 in
    let (e4, m4) = set_on_disconnect_callback (some callback) custom_data m3 in
    ((e1, e2, e3, e4), m4)

-- The objects behind it.
abbrev pub sender_up : SetupReplies → ℤ → ℤ → ℕ → ℕ → WifiObject → Allocation → WifiObject
sender_up env read_end write_end callback custom_data raw b = record (init_object raw) {
  socket = env.socket_created;
  socket_buffer_size = env.send_buffer;
  fifo_read = read_end;
  fifo_write = write_end;
  buffer = b.address;
  bytes = b.contents;
  size = 0;
  current_frame = b.address;
  on_disconnect = some callback;
  on_disconnect_custom_data = custom_data;
}

abbrev pub receiver_up : SetupReplies → ℤ → ℤ → ℤ → ℕ → ℕ → WifiObject → Allocation → WifiObject
receiver_up env read_end write_end timeout_sec callback custom_data raw b =
    record (init_object raw) {
      socket = env.socket_created;
      fifo_read = read_end;
      fifo_write = write_end;
      buffer = b.address;
      bytes = b.contents;
      size = 0;
      timeout_sec = to_u32 timeout_sec;
      on_disconnect = some callback;
      on_disconnect_custom_data = custom_data;
    }

new-some :
    {p : Platform} {so ro : WifiObject} {sb rb : Allocation} (ms : Mallocs) (m : Manager)
    → AreMallocs p ms so ro sb rb
    → new ms (some m) ≡ (
      ok,
      some (record m {
        sender = some (give_sender_buffer (some sb) (init_object so)).1;
        receiver = some (give_receiver_buffer (some rb) (init_object ro)).1;
      }),
    )
unfolding new
new-some ms m h =
    rw
      (
        h.sender_object_given, h.sender_buffer_given, h.receiver_object_given,
        h.receiver_buffer_given,
      )
      refl

-- The object behind its descriptors are opened.
abbrev opened : SetupReplies → ℤ → ℤ → WifiObject → WifiObject
opened env read_end write_end o = record o {
  socket = env.socket_created;
  fifo_read = read_end;
  fifo_write = write_end;
}

open_descriptors-opened :
    {read_end write_end : ℤ} (env : SetupReplies) (o : WifiObject)
    → AreOpened env read_end write_end
    → open_descriptors env o ≡ (ok, opened env read_end write_end o)
open_descriptors-opened env o h = rw (h.pipe_made, h.socket_open) refl

connect-some :
    {read_end write_end : ℤ} (env : SetupReplies) (m : Manager) (o : WifiObject)
    → AreOpened env read_end write_end
    → m.sender ≡ some o
    → connect env (some m) ≡ (
      ok,
      some (record m {
        sender =
            some
              (record (opened env read_end write_end o) { socket_buffer_size = env.send_buffer });
      }),
    )
unfolding connect
connect-some env m o h at = simp (at, open_descriptors-opened env o h, h.attached)

bind-some :
    {read_end write_end : ℤ} (env : SetupReplies) (t : ℤ) (m : Manager) (o : WifiObject)
    → AreOpened env read_end write_end
    → m.receiver ≡ some o
    → bind env t (some m) ≡ (
      ok,
      some (record m {
        receiver = some (record (opened env read_end write_end o) { timeout_sec = to_u32 t });
      }),
    )
unfolding bind
bind-some env t m o h at = simp (at, open_descriptors-opened env o h, h.attached)

pub set_up-objects :
    {p : Platform} {so ro : WifiObject} {sb rb : Allocation} {rs ws rr wr : ℤ} (ms : Mallocs)
    (env_s env_r : SetupReplies) (t : ℤ) (callback custom_data : ℕ) (m : Manager)
    → AreMallocs p ms so ro sb rb
    → AreOpened env_s rs ws
    → AreOpened env_r rr wr
    → set_up ms env_s env_r t callback custom_data m ≡ (
      (ok, ok, ok, ok),
      some (record m {
        sender = some (sender_up env_s rs ws callback custom_data so sb);
        receiver = some (receiver_up env_r rr wr t callback custom_data ro rb);
      }),
    )
unfolding set_on_disconnect_callback
set_up-objects {so = so} {ro = ro} {sb = sb} {rb = rb} {rs = rs} {ws = ws} ms env_s env_r t callback
      custom_data m h os or =
    let s = (give_sender_buffer (some sb) (init_object so)).1 in
    let r = (give_receiver_buffer (some rb) (init_object ro)).1 in
    let m1 = record m { sender = some s; receiver = some r } in
    let m2 = record m1 {
      sender = some (record (opened env_s rs ws s) { socket_buffer_size = env_s.send_buffer });
    } in
    rw (new-some ms m h, connect-some env_s m1 s os refl, bind-some env_r t m2 r or refl) refl
