-- ===== src/Mux/Transfer.antt =====
-- A frame that the mux network carries.
use lib_arnetwork_al.Prelude.{
  ◌++◌, take-length, List, [], ap, arith, false, get_elem?, is_neg, leb-true, length, ltb-false,
  none, pos, refl, some, take, ℕ, ℤ, ◌+◌, ◌-◌, ◌∙◌, ◌∷◌, ◌≡◌,
}
use lib_arnetwork_al.Platform.{
  read_bytes-block, read_bytes, IsPlatform, Memory, Platform, block, bytes_u32-u32_bytes, read_u32,
  write_bytes-append,
}
use lib_arnetwork_al.Frame.{buffer_empty, Frame, default, header_size}
use lib_arnetwork_al.Frame.Codec.{
  IsMessage, Message, encode_message, length-encode_message, message_size,
}
use lib_arnetwork_al.Wifi.Transfer.Outgoing.{Carries}
use lib_arnetwork_al.Mux.{
  MuxEvent, mux_receive, got_buffer, RxBuffer, unref, MuxObject, PushReplies, encode_and_send,
  encoded, mux_pop_frame, mux_push_frame, unref_sent,
}

-- libpomp gives a buffer of the frame's size and fills it, and libmux takes it.
pub record Accepts (env : PushReplies) (f : Frame) (contents : List ℕ) : Type 0 where
  pub given : env.new_buffer ≡ some contents
  pub room : length contents ≡ f.size
  pub got_data : is_neg env.get_data ≡ false
  pub length_set : is_neg env.set_len ≡ false
  pub sent : env.encode_result ≡ pos 0

pub block-at :
    (base : ℕ) (bytes : List ℕ) (a k : ℕ) → a ≡ base + k → block base bytes a ≡ get_elem? bytes k
block-at base bytes a k e =
    rw (leb-true base a (omega arith), (let i : a - base ≡ k = omega arith in i)) refl

mux_push_frame-encode :
    (p : Platform) (mem : Memory) (env : PushReplies) (o : MuxObject) (f : Frame) (g : Message)
    (contents : List ℕ)
    → IsMessage g
    → Carries mem f g
    → Accepts env f contents
    → mux_push_frame p mem env o f
      ≡ some (default, o, encoded o.ctx (encode_message p g) ∷ unref_sent ∷ [])
unfolding mux_push_frame encode_and_send
mux_push_frame-encode p mem env o f g contents gm c acc =
    let message = encode_message p g in
    let n : length message ≡ message_size g = length-encode_message p g in
    let (written, ran, _, kept) =
      write_bytes-append contents 0 message (omega (arith, n, acc.room, c.size)) in
    let held : take (length message) written ≡ message =
      ap (λ k. take k written) {x = length message} {y = 0 + length message} (omega arith) ∙ kept in
    rw
      (
        acc.given, acc.got_data, c.payload, c.type, c.id, c.seq, c.size, ran, acc.length_set,
        acc.sent,
      )
      (ap (λ bytes. some (default, o, encoded o.ctx bytes ∷ unref_sent ∷ [])) held)

-- The size in the head of the bytes of a frame.
read_u32-encode :
    (p : Platform) (g : Message) (a : ℕ)
    → IsPlatform p
    → IsMessage g
    → read_u32 (block a (encode_message p g)) (a + 3) ≡ some (p.htodl (message_size g))
unfolding read_u32
read_u32-encode p g a ip gm =
    let bytes = encode_message p g in
    let size = message_size g in
    rw
      (
        block-at a bytes (a + 3) 3 (omega arith),
        block-at a bytes (a + 3 + 1) 4 (omega arith),
        block-at a bytes (a + 3 + 2) 5 (omega arith),
        block-at a bytes (a + 3 + 3) 6 (omega arith),
      )
      (ap some (bytes_u32-u32_bytes (p.htodl size) (ip.htodl-lt size (omega (arith, gm)))))

-- A buffer that holds one frame.
mux_pop_frame-encode :
    (p : Platform) (cdata : ℤ) (o : MuxObject) (f : Frame) (g : Message) (a : ℕ)
    → IsPlatform p
    → IsMessage g
    → is_neg cdata ≡ false
    → o.rxbuf_pop ≡ none
    → o.rxbuf_recv ≡ some (record { address = a; bytes = encode_message p g })
    → mux_pop_frame p cdata o f
      ≡ some (
        default,
        record o {
          rxbuf_recv = none;
          rxbuf_pop = some (record { address = a; bytes = encode_message p g });
        },
        record {
          type = g.type;
          id = g.id;
          seq = g.seq;
          size = message_size g;
          data_ptr = a + header_size;
        },
      )
unfolding mux_pop_frame
mux_pop_frame-encode p cdata o f g a ip gm read idle held =
    let bytes = encode_message p g in
    let size = message_size g in
    let back : p.dtohl (p.htodl size) ≡ size = ip.dtohl-htodl size (omega (arith, gm)) in
    rw
      (
        held,
        idle,
        read,
        ltb-false (length bytes) header_size (omega arith),
        block-at a bytes a 0 (omega arith),
        block-at a bytes (a + 1) 1 (omega arith),
        block-at a bytes (a + 2) 2 (omega arith),
        read_u32-encode p g a ip gm,
        back,
        ltb-false (length bytes) size (omega (arith, length-encode_message p g)),
      )
      refl

-- A frame with readable data for which libpomp gives a buffer of its size, whose data it also hands
-- out again, and that libmux takes is pushed with DEFAULT, and encoded as its bytes. A receiver that
-- gets these bytes from its queue returns DEFAULT, PopFrame then gives the frame's head and the
-- address where its data lie, and the next call of PopFrame returns BUFFER_EMPTY with the frame and
-- the object as they are.
pub mux_transfer :
    (p : Platform) (mem : Memory) (env : PushReplies) (s r : MuxObject) (f f0 f1 : Frame)
    (g : Message) (contents : List ℕ) (a queue : ℕ) (cdata cdata' : ℤ)
    → IsPlatform p
    → IsMessage g
    → Carries mem f g
    → Accepts env f contents
    → r.rxqueue ≡ some queue
    → is_neg cdata ≡ false
    → (mux_push_frame p mem env s f
        ≡ some (default, s, encoded s.ctx (encode_message p g) ∷ unref_sent ∷ []))
      × (r1 : MuxObject) × (released : List MuxEvent) × (mux_receive
            (got_buffer (record { address = a; bytes = encode_message p g }))
            r
          ≡ (default, r1, released))
      × (r2 : MuxObject) × (mux_pop_frame p cdata r1 f0
          ≡ some (
            default,
            r2,
            record {
              type = g.type;
              id = g.id;
              seq = g.seq;
              size = message_size g;
              data_ptr = a + header_size;
            },
          ))
      × (read_bytes (block a (encode_message p g)) (a + header_size) (length g.payload)
          ≡ some g.payload)
      × (mux_pop_frame p cdata' r2 f1 ≡ some (buffer_empty, r2, f1))
unfolding mux_receive mux_pop_frame
mux_transfer p mem env s r f f0 f1 g contents a queue cdata cdata' ip gm c acc at read =
    let b : RxBuffer = record { address = a; bytes = encode_message p g } in
    let r1 = record r { rxbuf_recv = some b; rxbuf_pop = none } in
    (
      mux_push_frame-encode p mem env s f g contents gm c acc,
      r1,
      unref r.rxbuf_recv ++ unref r.rxbuf_pop,
      rw at refl,
      record r1 { rxbuf_recv = none; rxbuf_pop = some b },
      mux_pop_frame-encode p cdata r1 f0 g a ip gm read refl refl,
      read_bytes-block a (encode_message p g) (a + header_size) header_size (length g.payload)
            (omega arith) (omega (arith, length-encode_message p g))
          ∙ ap some (take-length g.payload),
      refl,
    )
