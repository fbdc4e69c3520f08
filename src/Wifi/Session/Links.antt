-- ===== src/Wifi/Session/Links.antt =====
-- What a call changes of an object's connection, and whom it tells.
use lib_arnetwork_al.Prelude.{
  Bool-cases, List, Option, [], add_u32, arith, false, inl, inr, ltb, none, refl, some, ℕ, ◌+◌,
  ◌==◌, ◌>>=◌, ◌∙◌, ◌≡◌,
}
use lib_arnetwork_al.Platform.{Errno, Memory, Platform, read_bytes}
use lib_arnetwork_al.Frame.{Frame, Return}
use lib_arnetwork_al.Wifi.{Event, Manager, WifiObject, memory, sending_buffer_size}
use lib_arnetwork_al.Wifi.Push.{
  OutQueue, append_field, copy_frame, data_size, get_available_send_size, is_short, push_frame,
}
use lib_arnetwork_al.Wifi.Send.{SendReply, emptied, send, send_error, send_failed, sent}
use lib_arnetwork_al.Wifi.Session.{notifications, budget}

-- The connection of an object is as it was.
pub record Kept (o o' : WifiObject) : Type 0 where
  pub disconnected : o'.is_disconnected ≡ o.is_disconnected
  pub callback : o'.on_disconnect ≡ o.on_disconnect
  pub socket : o'.socket ≡ o.socket
  pub fifo : o'.fifo_read ≡ o.fifo_read

pub Kept-refl : (o : WifiObject) → Kept o o
Kept-refl o = record { disconnected = refl; callback = refl; socket = refl; fifo = refl }

pub Kept-trans : {a b c : WifiObject} → Kept a b → Kept b c → Kept a c
Kept-trans h k = record {
  disconnected = k.disconnected ∙ h.disconnected;
  callback = k.callback ∙ h.callback;
  socket = k.socket ∙ h.socket;
  fifo = k.fifo ∙ h.fifo;
}

pub append_field-Kept :
    (src : List ℕ) (o o' : WifiObject) → append_field src o ≡ some o' → Kept o o'
unfolding append_field
append_field-Kept src o o' ran = ground arith

-- A property of what a step gives, where it gives something.
abbrev pub Post : {A : Type 0} → (A → Type 0) → Option A → Type 0
Post P none = Unit {0}
Post P (some a) = P a

pub Post-intro :
    {A : Type 0} (P : A → Type 0) (x : Option A) → ((a : A) → x ≡ some a → P a) → Post P x
Post-intro P none h = tt
Post-intro P (some a) h = h a refl

pub Post-elim : {A : Type 0} (P : A → Type 0) (x : Option A) (a : A) → x ≡ some a → Post P x → P a
Post-elim P x a e h = rw e at h

pub Post-bind :
    {A B : Type 0} (Q : B → Type 0) (x : Option A) (f : A → Option B)
    → ((a : A) → x ≡ some a → Post Q (f a))
    → Post Q (x >>= f)
Post-bind Q none f h = tt
Post-bind Q (some a) f h = h a refl

append_field-bind :
    (src : List ℕ) (o o' : WifiObject) (f : WifiObject → Option WifiObject)
    → Kept o o'
    → ((a : WifiObject) → Kept o a → Post (Kept o) (f a))
    → Post (Kept o) (append_field src o' >>= f)
append_field-bind src o o' f k h =
    Post-bind (Kept o) (append_field src o') f
      (λ a e. h a (Kept-trans k (append_field-Kept src o' a e)))

copy_frame-Kept :
    (p : Platform) (mem : Memory) (f : Frame) (o : WifiObject)
    → Post (Kept o) (copy_frame p mem f o)
unfolding copy_frame
copy_frame-Kept p mem f o = append_field-bind _ o _ _ (Kept-refl o) (λ a ka.
    append_field-bind _ o _ _ ka (λ b kb. append_field-bind _ o _ _ kb (λ c kc.
      append_field-bind _ o _ _ kc (λ d kd.
        Post-bind (Kept o) (read_bytes mem f.data_ptr (data_size f)) _ (λ payload e.
          Post-intro (Kept o) (append_field payload d)
            (λ z ez. Kept-trans kd (append_field-Kept payload d z ez)))))))

-- What a call does to an object, beside another: its callback and its descriptors stay, and what can
-- still be told is told now or left.
pub record Linked (o peer o' : WifiObject) (events : List Event) : Type 0 where
  pub callback : o'.on_disconnect ≡ o.on_disconnect
  pub socket : o'.socket ≡ o.socket
  pub fifo : o'.fifo_read ≡ o.fifo_read
  pub told : notifications events + budget o' peer ≡ budget o peer

Kept-Linked :
    (o peer o' : WifiObject) (events : List Event)
    → Kept o o'
    → notifications events ≡ 0
    → Linked o peer o' events
Kept-Linked o peer o' events k e = record {
  callback = k.callback;
  socket = k.socket;
  fifo = k.fifo;
  told = ground (arith, k, e);
}

-- What PushFrame and Send do to the sender.
abbrev pub SenderLinked : WifiObject → WifiObject → Return × Manager × List Event → Type 0
SenderLinked s r (code, m, events) = (s' : WifiObject) × (m.sender ≡ some s') × Linked s r s' events

get_available_send_size-Kept :
    (reply : OutQueue) (o : WifiObject) → Kept o (get_available_send_size reply o).1
unfolding get_available_send_size
get_available_send_size-Kept reply o = ground arith

pub push_frame-Linked :
    (p : Platform) (mem : Memory) (reply : OutQueue) (m : Manager) (s r : WifiObject) (f : Frame)
    → m.sender ≡ some s
    → Post (SenderLinked s r) (push_frame p mem reply m f)
unfolding push_frame
push_frame-Linked p mem reply m s r f at =
    let next_size = add_u32 s.size f.size in
    let s1 = (get_available_send_size reply s).1 in
    let kept = get_available_send_size-Kept reply s in
    elim (Bool-cases (ltb (sending_buffer_size p) next_size)) [
      | inl full ↦ rw (at, full) (s, refl, Kept-Linked s r s [] (Kept-refl s) refl)
      | inr fits ↦ elim (Bool-cases (is_short (get_available_send_size reply s).0 next_size)) [
        | inl short ↦ rw (at, fits, short) (s1, refl, Kept-Linked s r s1 [] kept refl)
        | inr free ↦
            rw (at, fits, free)
              (Post-bind (SenderLinked s r) (copy_frame p mem f s1) _ (λ o e. (
                o,
                refl,
                Kept-Linked s r o _
                    (Kept-trans kept (Post-elim (Kept s1) _ o e (copy_frame-Kept p mem f s1)))
                    (ground arith),
              )))
      ]
    ]

-- A failed send tells of the disconnection if it is the first.
send_error-Linked :
    (e : Errno) (s r : WifiObject) (callback : ℕ)
    → s.on_disconnect ≡ some callback
    → Linked s r (send_error e s (some r)).0 (send_error e s (some r)).1
send_error-Linked e s r callback tells = record {
  callback = ground arith;
  socket = ground arith;
  fifo = ground arith;
  told = ground (arith, tells);
}

pub send-Linked :
    (reply : SendReply) (m : Manager) (s r : WifiObject) (callback : ℕ)
    → m.sender ≡ some s
    → m.receiver ≡ some r
    → s.on_disconnect ≡ some callback
    → Post (SenderLinked s r) (send reply m)
unfolding send
send-Linked reply m s r callback at_s at_r tells = elim (Bool-cases (s.size == 0)) [
  | inl idle ↦ rw (at_s, idle) (s, refl, Kept-Linked s r s [] (Kept-refl s) refl)
  | inr busy ↦ by_reply reply busy
]
  where
    by_reply : (reply : SendReply) → (s.size == 0) ≡ false → Post (SenderLinked s r) (send reply m)
    by_reply (sent n) busy =
        rw (at_s, busy)
          (Post-bind (SenderLinked s r) (read_bytes (memory s) s.buffer s.size) _ (λ bytes e. (
            record (emptied s) { bw_current = add_u32 s.bw_current n },
            refl,
            Kept-Linked s r _ _
                (record { disconnected = refl; callback = refl; socket = refl; fifo = refl })
                (ground arith),
          )))
    by_reply (send_failed error) busy =
        let linked = send_error-Linked error s r callback tells in
        rw (at_s, at_r, busy)
          (Post-bind (SenderLinked s r) (read_bytes (memory s) s.buffer s.size) _ (λ bytes e. (
            (send_error error s (some r)).0,
            refl,
            record {
              callback = linked.callback;
              socket = linked.socket;
              fifo = linked.fifo;
              told = linked.told;
            },
          )))
