-- ===== src/JniBle/Transfer.antt =====
-- A frame that crosses the BLE network: what PushFrame of JNI/c/ARNETWORKAL_JNIBLENetwork.c hands to
-- Java, and what PopFrame makes of what Java hands back.
use lib_arnetwork_al.Prelude.{
  ◌>>=◌, List, [], add_word, ap, arith, false, if◌then◌else◌, leb, leb-false, leb-true, length, ltb,
  none, not, pos, refl, some, sub_word, suc, take-length, true, u32_mod, ℕ, ◌%◌, ◌++◌, ◌+◌, ◌-◌,
  ◌<◌, ◌>>=◌, ◌^◌, ◌∙◌, ◌∷◌, ◌≡◌, ◌≤◌,
}
use lib_arnetwork_al.Platform.{Memory, block, read_bytes, read_bytes-block}
use lib_arnetwork_al.Frame.{Frame, Return, bad_frame, default, header_size}
use lib_arnetwork_al.JniBle.{
  JniBleObject, JniEvent, Thread, ble_header_size, ble_max_buffer_size, called, deleted_local,
  get_data_method, get_id_method, get_result_method, got_elements, has_env, media_mtu, new_global,
  new_local, pop_frame_method, push_frame_method, within, Option,
}
use lib_arnetwork_al.JniBle.Object.{object_delete_current_frame, object_store_current_frame}
use lib_arnetwork_al.JniBle.Frames.{jni_pop_frame, jni_push_frame, popped_frame}

-- What a push does, as a specification: a payload of at most 18 bytes is handed to Java with the
-- frame's fields, a longer one is refused.
abbrev pub push_outcome :
    Thread
    → (array network : ℕ) → (reply : Return) → Frame
    → (payload : List ℕ) → Return × List JniEvent
push_outcome t array network reply f payload =
    if leb (length payload) ble_max_buffer_size
    then (
      reply,
      within t (
          new_local array
          ∷ called (push_frame_method f.type f.id f.seq (length payload) payload) network
          ∷ deleted_local array
          ∷ []),
    )
    else (bad_frame, within t (new_local array ∷ deleted_local array ∷ []))

too_long :
    (n : ℕ)
    → n < 2 ^ 31
    → ltb media_mtu (add_word n ble_header_size) ≡ not (leb n ble_max_buffer_size)
too_long n small = ground arith

jni_push_frame-made :
    (t : Thread) (mem : Memory) (array l : ℕ) (reply : Return) (a : ℕ) (o : JniBleObject)
    (f : Frame) (payload : List ℕ)
    → has_env t ≡ true
    → o.java_network ≡ some l
    → length payload < 2 ^ 31
    → f.size ≡ header_size + length payload
    → read_bytes mem f.data_ptr (length payload) ≡ some payload
    → jni_push_frame t mem (some array) reply (record { address = a; ble_object = some o }) f
      ≡ some (push_outcome t array l reply f payload)
unfolding jni_push_frame
jni_push_frame-made t mem array l reply a o f payload env at small size read =
    let n = length payload in
    let d : sub_word f.size header_size ≡ n = omega (arith, size, small) in
    let e : n % u32_mod ≡ n = omega (arith, small) in
    rw (env, d, e, leb-false (2 ^ 31) n small, read, too_long n small)
      (elim (leb n ble_max_buffer_size)
        as (λ fits.
          (if not fits
            then some (bad_frame, within t (new_local array ∷ deleted_local array ∷ []))
            else (o.java_network >>= λ network. some (handed network)))
          ≡ some (if fits then handed l else refusal)) [ true ↦ rw at refl | false ↦ refl ])
  where
    handed : ℕ → Return × List JniEvent
    handed network = (
      reply,
      within t (
          new_local array
          ∷ called (push_frame_method f.type f.id f.seq (length payload) payload) network
          ∷ deleted_local array
          ∷ []),
    )

    refusal : Return × List JniEvent
    refusal = (bad_frame, within t (new_local array ∷ deleted_local array ∷ []))

-- With an environment and a Java object, a frame whose size is that of its head and of its readable
-- data, of less than 2^31 bytes, needs an array that NewByteArray makes for its data, whatever their
-- length: where it makes none, the call is undefined behaviour, for SetByteArrayRegion is called on
-- NULL before the length is tested. Where it makes one, the frame is handed to Java, with its type,
-- identifier, sequence number and data, just where the data have at most MAX_BUFFER_SIZE bytes; then
-- the result is Java's, and else it is BAD_FRAME; the call takes and gives back one local reference.
pub jni_push_frame-bounds :
    (t : Thread) (mem : Memory) (array : Option ℕ) (l : ℕ) (reply : Return) (a : ℕ)
    (o : JniBleObject) (f : Frame) (payload : List ℕ)
    → has_env t ≡ true
    → o.java_network ≡ some l
    → length payload < 2 ^ 31
    → f.size ≡ header_size + length payload
    → read_bytes mem f.data_ptr (length payload) ≡ some payload
    → jni_push_frame t mem array reply (record { address = a; ble_object = some o }) f
      ≡ (array >>= λ local. some (push_outcome t local l reply f payload))
unfolding jni_push_frame
jni_push_frame-bounds t mem none l reply a o f payload env at small size read = rw env refl
jni_push_frame-bounds t mem (some array) l reply a o f payload env at small size read =
    jni_push_frame-made t mem array l reply a o f payload env at small size read

-- A frame whose data fit that is pushed and handed back by Java: with an environment on both sides, and
-- where NewByteArray, NewGlobalRef and GetByteArrayElements give what they are asked for, a frame of bytes with at most MAX_BUFFER_SIZE bytes of readable data makes PushFrame return what Java
-- returns, and hand Java its type, identifier, sequence number and data; where the other side's
-- popFrame gives a DataPop with that identifier and an array of the type, the sequence number and the
-- data, PopFrame returns DEFAULT and the same type, identifier, sequence number and size, and the data
-- lie where its pointer says, in the elements that the object then holds.
pub jni_transfer :
    (t t' : Thread) (mem : Memory) (array l : ℕ) (reply : Return) (a : ℕ) (o o' : JniBleObject)
    (f f0 : Frame) (payload : List ℕ) (reference array' g base l' a' : ℕ)
    → has_env t ≡ true
    → has_env t' ≡ true
    → o.java_network ≡ some l
    → o'.java_network ≡ some l'
    → length payload ≤ ble_max_buffer_size
    → f.id < 256
    → f.size ≡ header_size + length payload
    → read_bytes mem f.data_ptr (length payload) ≡ some payload
    → (jni_push_frame t mem (some array) reply (record { address = a; ble_object = some o }) f
        ≡ some (
          reply,
          within t (
              new_local array
              ∷ called (push_frame_method f.type f.id f.seq (length payload) payload) l
              ∷ deleted_local array
              ∷ []),
        ))
      × (after : JniBleObject) × (es : List JniEvent) × (jni_pop_frame t'
            (record {
              data_pop = some (record {
                reference = reference;
                result = default;
                frame_id = pos f.id;
                frame_data = some array';
              });
              global_array = some g;
              elements = some (record { address = base; contents = f.type ∷ f.seq ∷ payload });
            })
            (record { address = a'; ble_object = some o' })
            f0
          ≡ some (
            default,
            record { address = a'; ble_object = some after },
            record f { data_ptr = base + 2 },
            es,
          ))
      × (after.current_frame
          ≡ some (record { address = base; contents = f.type ∷ f.seq ∷ payload }))
      × (read_bytes (block base (f.type ∷ f.seq ∷ payload)) (base + 2) (length payload)
          ≡ some payload)
unfolding jni_pop_frame popped_frame object_store_current_frame
jni_transfer t t' mem array l reply a o o' f f0 payload reference array' g base l' a' env env' at
      at' fits id size read =
    let n = length payload in
    let same_id : f.id % u32_mod % 256 ≡ f.id = omega (arith, id) in
    let same_size : add_word (sub_word (suc (suc n)) 2) header_size % u32_mod ≡ f.size =
      omega (arith, fits, size) in
    (
      jni_push_frame-made t mem array l reply a o f payload env at (omega (arith, fits)) size read
          ∙ rw (leb-true n ble_max_buffer_size fits) refl,
      record (object_delete_current_frame o').0 {
        current_frame_byte_array = some g;
        current_frame = some (record { address = base; contents = f.type ∷ f.seq ∷ payload });
      },
      within t' (
          called pop_frame_method l'
          ∷ new_local reference
          ∷ called get_result_method reference
          ∷ called get_id_method reference
          ∷ called get_data_method reference
          ∷ new_local array'
          ∷ deleted_local reference
          ∷ (((object_delete_current_frame o').1
                ++ (new_global array' g ∷ got_elements g base ∷ []))
              ++ (deleted_local array' ∷ []))),
      simp
          (
            env',
            at',
            leb-true base base (omega arith),
            leb-true base (base + 1) (omega arith),
            (let i : base - base ≡ 0 = omega arith in i),
            (let i : base + 1 - base ≡ 1 = omega arith in i),
            same_id,
            same_size,
          )
          refl,
      refl,
      read_bytes-block base (f.type ∷ f.seq ∷ payload) (base + 2) 2 n refl (omega arith)
          ∙ ap some (take-length payload),
    )
