-- ===== src/Mux.antt =====
-- The mux network of Sources/Mux/ARNETWORKAL_MuxNetwork.c. libmux's queue and libpomp's buffers are
-- seen through what their functions return.
pub mod Transfer
pub mod Buffers
pub mod Conserve
pub mod Network
use lib_arnetwork_al.Prelude.{
  ◌>>=◌, Bool, List, Option, [], false, if◌then◌else◌, is_neg, length, ltb, negsuc, none, not, pos,
  some, sub_word, take, true, u32_mod, ℕ, ℤ, ◌%◌, ◌++◌, ◌+◌, ◌==◌, ◌∷◌,
}
use lib_arnetwork_al.Platform.{Memory, Platform, block, read_bytes, read_u32, write_bytes}
use lib_arnetwork_al.Errors.{Error, alloc, bad_parameter, network, ok}
use lib_arnetwork_al.Frame.{
  Frame, Return, bad_frame, buffer_empty, default, encode, header_size, network_error,
}

-- A `struct pomp_buffer` that was received: its address, and the bytes that it holds.
pub record RxBuffer : Type 0 where
  pub address : ℕ
  pub bytes : List ℕ

-- ARNETWORKAL_MuxNetworkObject. Contexts, queues and callbacks are known by numbers.
pub record MuxObject : Type 0 where
  pub ctx : ℕ
  pub rxbuf_recv : Option RxBuffer
  pub rxbuf_pop : Option RxBuffer
  pub rxqueue : Option ℕ
  pub on_disconnect : Option ℕ
  pub on_disconnect_custom_data : ℕ
  pub disconnected : Bool

-- What a call does outside of the object: `mux_encode` of some bytes, `pomp_buffer_unref` of the
-- buffer that was allocated to send, and of a received one, and a call of the callback.
pub data MuxEvent : Type 0 where
  encoded : (ctx : ℕ) → List ℕ → MuxEvent
  unref_sent : MuxEvent
  unref_received : RxBuffer → MuxEvent
  mux_notified : (callback custom_data : ℕ) → MuxEvent

-- `Notify disconnection if not already done`
abbrev pub disconnect : MuxObject → MuxObject × List MuxEvent
disconnect o = if o.disconnected then (o, []) else (
  record o { disconnected = true },
  elim o.on_disconnect [
    | none ↦ []
    | some callback ↦ mux_notified callback o.on_disconnect_custom_data ∷ []
  ],
)

-- What libpomp and libmux return to PushFrame: whether `pomp_buffer_new` gives a buffer, and with
-- what contents, and the results of pomp_buffer_get_data, pomp_buffer_set_len and mux_encode.
pub record PushReplies : Type 0 where
  pub new_buffer : Option (List ℕ)
  pub get_data : ℤ
  pub set_len : ℤ
  pub encode_result : ℤ

abbrev pub result_code : ℤ → Return
result_code (pos n) = if n == 0 then default else network_error
result_code (negsuc n) = network_error

-- The end of PushFrame, where the bytes are in the buffer.
unfoldable pub encode_and_send :
    PushReplies → List ℕ → MuxObject → Return × MuxObject × List MuxEvent
encode_and_send env bytes o =
    if is_neg env.set_len
    then (network_error, o, unref_sent ∷ [])
    else if is_neg env.encode_result
    then (let (o', told) = disconnect o in
        (network_error, o', encoded o.ctx bytes ∷ (told ++ (unref_sent ∷ []))))
    else (result_code env.encode_result, o, encoded o.ctx bytes ∷ unref_sent ∷ [])

-- ARNETWORKAL_MuxNetwork_PushFrame. Where no buffer is to be had the result is still 0.
unfoldable pub mux_push_frame :
    Platform
    → Memory
    → PushReplies
    → MuxObject
    → Frame
    → Option (Return × MuxObject × List MuxEvent)
unfolding encode_and_send
mux_push_frame p mem env o f = elim env.new_buffer [
  | none ↦ some (default, o, [])
  | some contents ↦ if is_neg env.get_data then some (network_error, o, unref_sent ∷ []) else do
    payload ← read_bytes mem f.data_ptr (sub_word f.size header_size % u32_mod)
    let message = encode p f.type f.id f.seq f.size payload
    written ← write_bytes contents 0 message
    some (encode_and_send env (take (length message) written) o)
]

-- ARNETWORKAL_MuxNetwork_PopFrame; `cdata` is the result of pomp_buffer_get_cdata.
unfoldable pub mux_pop_frame :
    Platform → (cdata : ℤ) → MuxObject → Frame → Option (Return × MuxObject × Frame)
mux_pop_frame p cdata o f = elim o.rxbuf_recv [
  | none ↦ some (buffer_empty, o, f)
  | some b ↦ elim o.rxbuf_pop [
    | some old ↦ some (network_error, o, f)
    | none ↦
        let o = record o { rxbuf_pop = some b; rxbuf_recv = none } in
        let memory = block b.address b.bytes in
        if is_neg cdata
        then some (network_error, o, f)
        else if ltb (length b.bytes) header_size
        then some (bad_frame, o, f)
        else do
          type ← memory b.address
          id ← memory (b.address + 1)
          seq ← memory (b.address + 2)
          size ← read_u32 memory (b.address + 3)
          let f = record f { type = type; id = id; seq = seq; size = p.dtohl size }
          some (
              if ltb (length b.bytes) f.size
              then (bad_frame, o, f)
              else (default, o, record f { data_ptr = b.address + header_size }))
  ]
]

-- ARNETWORKAL_MuxNetwork_Send
abbrev pub mux_send : MuxObject → Return
mux_send o = default

-- What mux_queue_timed_get_buf gives.
pub data QueueReply : Type 0 where
  got_buffer : RxBuffer → QueueReply
  epipe etimedout_reply : QueueReply
  queue_failed : QueueReply

abbrev pub unref : Option RxBuffer → List MuxEvent
unref none = []
unref (some b) = unref_received b ∷ []

-- ARNETWORKAL_MuxNetwork_Receive
unfoldable pub mux_receive : QueueReply → MuxObject → Return × MuxObject × List MuxEvent
mux_receive reply o =
    let released = unref o.rxbuf_recv ++ unref o.rxbuf_pop in
    let o = record o { rxbuf_recv = none; rxbuf_pop = none } in
    elim o.rxqueue [
      | none ↦ (network_error, o, released)
      | some queue ↦ elim reply [
        | got_buffer b ↦ (default, record o { rxbuf_recv = some b }, released)
        | queue_failed ↦ (network_error, o, released)
        | _ ↦
            let (o', told) = disconnect (record o { rxqueue = none }) in
            (network_error, o', released ++ told)
      ]
    ]

-- ARNETWORKAL_MuxNetwork_SetOnDisconnectCallback
abbrev pub mux_set_on_disconnect_callback : Option ℕ → ℕ → MuxObject → MuxObject
mux_set_on_disconnect_callback callback custom_data o = record o {
  on_disconnect = callback;
  on_disconnect_custom_data = custom_data;
}

-- ARNETWORKAL_Manager_InitMuxNetwork, of a manager that is not NULL where `manager` is true: the
-- object that it makes the sender and the receiver at once. `allocated` is whether calloc gives a
-- block, and `queue` what mux_channel_alloc_queue writes.
abbrev pub init_mux_network :
    (manager : Bool)
    → (ctx : Option ℕ) → (allocated : Bool) → (queue : Option ℕ) → Error × Option MuxObject
init_mux_network manager none allocated queue = (bad_parameter, none)
init_mux_network manager (some ctx) allocated queue =
    if not manager then (bad_parameter, none) else if not allocated then (alloc, none) else (
      ok,
      some (record {
        ctx = ctx;
        rxbuf_recv = none;
        rxbuf_pop = none;
        rxqueue = queue;
        on_disconnect = none;
        on_disconnect_custom_data = 0;
        disconnected = false;
      }),
    )
