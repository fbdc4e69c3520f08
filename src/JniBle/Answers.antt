-- ===== src/JniBle/Answers.antt =====
-- What PopFrame of JNI/c/ARNETWORKAL_JNIBLENetwork.c makes of a DataPop of Java, on each of its paths.
use lib_arnetwork_al.Prelude.{
  List, Option, add_word, sub_word, suc, ap, arith, leb-true, length, none, refl, some, take-length,
  true, u32_mod, ℕ, ℤ, ◌%◌, ◌+◌, ◌-◌, ◌∙◌, ◌∷◌, ◌≡◌,
}
use lib_arnetwork_al.Platform.{block, read_bytes, read_bytes-block}
use lib_arnetwork_al.Frame.{
  Frame, Return, bad_frame, bad_parameters, buffer_empty, buffer_full, default, header_size,
  network_error, no_data_available, reset_frame,
}
use lib_arnetwork_al.Wifi.Lifecycle.{Allocation, to_u32}
use lib_arnetwork_al.JniBle.{JniBleObject, JniEvent, Thread, has_env}
use lib_arnetwork_al.JniBle.Object.{object_store_current_frame}
use lib_arnetwork_al.JniBle.Frames.{DataPop, PopReplies, jni_pop_frame, popped_frame}
use lib_arnetwork_al.JniBle.Life.{IsReadable}

-- The result, and the elements that the object then holds: Java's result and the new array's where
-- there is one, and BAD_FRAME and the ones before where there is none.
abbrev pub pop_outcome : PopReplies → (held : Option Allocation) → Return × Option Allocation
pop_outcome env held = elim env.data_pop [
  | none ↦ (bad_frame, held)
  | some d ↦ elim d.frame_data [ none ↦ (bad_frame, held) | some array ↦ (d.result, env.elements) ]
]

-- The frame behind a result: on DEFAULT that of the DataPop's identifier and of the held elements, its
-- data behind their two bytes of head, and else the reset one.
abbrev pub IsPopped :
    Return → Option DataPop → (held : Option Allocation) → (before after : Frame) → Type 0
IsPopped default data_pop held f f' =
    (d : DataPop) × (base type seq : ℕ) × (payload : List ℕ) × (data_pop ≡ some d)
    × (held ≡ some (record { address = base; contents = type ∷ seq ∷ payload }))
    × (f' ≡ record {
      type = type;
      id = to_u32 d.frame_id % 256;
      seq = seq;
      size = (header_size + length payload) % u32_mod;
      data_ptr = base + 2;
    })
    × (read_bytes (block base (type ∷ seq ∷ payload)) f'.data_ptr (length payload) ≡ some payload)
IsPopped result data_pop held f f' = f' ≡ reset_frame f

-- PopFrame gives `result`, with a frame that belongs to it, and its object then holds `held`.
abbrev pub Answers :
    Thread → PopReplies → ℕ → JniBleObject → Frame → Return × Option Allocation → Type 0
Answers t env a o f (result, held) =
    (after : JniBleObject) × (f' : Frame) × (es : List JniEvent) × (jni_pop_frame t env
        (record { address = a; ble_object = some o }) f
      ≡ some (result, record { address = a; ble_object = some after }, f', es))
    × (after.current_frame ≡ held)
    × IsPopped result env.data_pop held f f'

module _ (t : Thread) (a n : ℕ) (o : JniBleObject) (f : Frame) (has : has_env t ≡ true)
    (at : o.java_network ≡ some n) where
  -- Without an array.
  none-Answers :
      (reference : ℕ) (result : Return) (frame_id : ℤ) (g : Option ℕ) (elements : Option Allocation)
      → Answers t
          (record {
            data_pop = some (record {
              reference = reference;
              result = result;
              frame_id = frame_id;
              frame_data = none;
            });
            global_array = g;
            elements = elements;
          })
          a
          o
          f
          (bad_frame, o.current_frame)
  unfolding jni_pop_frame
  none-Answers reference result frame_id g elements = rw (has, at) (_, _, _, refl, refl, refl)

  -- With an array.
  some-Answers :
      (reference : ℕ) (result : Return) (frame_id : ℤ) (array g : ℕ) (elements : Option Allocation)
      → IsReadable (some g) result elements
      → Answers t
          (record {
            data_pop = some (record {
              reference = reference;
              result = result;
              frame_id = frame_id;
              frame_data = some array;
            });
            global_array = some g;
            elements = elements;
          })
          a
          o
          f
          (result, elements)
  unfolding jni_pop_frame popped_frame object_store_current_frame
  some-Answers reference default frame_id array g elements (base, type, seq, payload, gives) =
      rw
        (
          gives,
          has,
          at,
          (let i : add_word (sub_word (suc (suc (length payload))) 2) header_size % u32_mod
                  ≡ (header_size + length payload) % u32_mod =
                omega arith in
              i),
          leb-true base base (omega arith),
          leb-true base (base + 1) (omega arith),
          (let i : base - base ≡ 0 = omega arith in i),
          (let i : base + 1 - base ≡ 1 = omega arith in i),
        )
        (
          _,
          _,
          _,
          refl,
          refl,
          (
            _,
            base,
            type,
            seq,
            payload,
            refl,
            refl,
            refl,
            read_bytes-block base (type ∷ seq ∷ payload) (base + 2) 2 (length payload) refl
                  (omega arith)
                ∙ ap some (take-length payload),
          ),
        )
  some-Answers reference bad_frame frame_id array g elements h =
      rw (has, at) (_, _, _, refl, refl, refl)
  some-Answers reference buffer_full frame_id array g elements h =
      rw (has, at) (_, _, _, refl, refl, refl)
  some-Answers reference buffer_empty frame_id array g elements h =
      rw (has, at) (_, _, _, refl, refl, refl)
  some-Answers reference no_data_available frame_id array g elements h =
      rw (has, at) (_, _, _, refl, refl, refl)
  some-Answers reference bad_parameters frame_id array g elements h =
      rw (has, at) (_, _, _, refl, refl, refl)
  some-Answers reference network_error frame_id array g elements h =
      rw (has, at) (_, _, _, refl, refl, refl)

  array-Answers :
      (reference : ℕ) (result : Return) (frame_id : ℤ) (frame_data g : Option ℕ)
      (elements : Option Allocation)
      → ((array : ℕ) → frame_data ≡ some array → IsReadable g result elements)
      → Answers t
          (record {
            data_pop = some (record {
              reference = reference;
              result = result;
              frame_id = frame_id;
              frame_data = frame_data;
            });
            global_array = g;
            elements = elements;
          })
          a
          o
          f
          (elim frame_data [
            | none ↦ (bad_frame, o.current_frame)
            | some array ↦ (result, elements)
          ])
  array-Answers reference result frame_id none g elements readable =
      none-Answers reference result frame_id g elements
  array-Answers reference result frame_id (some array) none elements readable =
      absurd (readable array refl)
  array-Answers reference result frame_id (some array) (some g) elements readable =
      some-Answers reference result frame_id array g elements (readable array refl)

  data_pop-Answers :
      (data_pop : Option DataPop) (g : Option ℕ) (elements : Option Allocation)
      → ((d : DataPop) (array : ℕ)
          → data_pop ≡ some d
          → d.frame_data ≡ some array
          → IsReadable g d.result elements)
      → Answers t
          (record { data_pop = data_pop; global_array = g; elements = elements })
          a
          o
          f
          (pop_outcome
            (record { data_pop = data_pop; global_array = g; elements = elements })
            o.current_frame)
  unfolding jni_pop_frame
  data_pop-Answers none g elements readable = rw (has, at) (_, _, _, refl, refl, refl)
  data_pop-Answers (some d) g elements readable =
      array-Answers d.reference d.result d.frame_id d.frame_data g elements
        (λ array e. readable d array refl e)

-- On a thread with an environment and an object with a Java object, PopFrame returns, where the array
-- of a DataPop of Java, if there is one, has a global reference and, where Java's result is DEFAULT,
-- elements of two bytes at least. Its result is Java's where there is an array, and BAD_FRAME where there
-- is no DataPop or no array in it, whatever Java's result; the object then holds the new array's elements,
-- or the ones of before. On DEFAULT the frame has the DataPop's identifier's low byte, and the type, the
-- sequence number, the size and the place of the data of the held elements; on any other result it is
-- reset.
pub jni_pop_frame-Answers :
    (t : Thread) (env : PopReplies) (a n : ℕ) (o : JniBleObject) (f : Frame)
    → has_env t ≡ true
    → o.java_network ≡ some n
    → ((d : DataPop) (array : ℕ)
        → env.data_pop ≡ some d
        → d.frame_data ≡ some array
        → IsReadable env.global_array d.result env.elements)
    → Answers t env a o f (pop_outcome env o.current_frame)
jni_pop_frame-Answers t env a n o f has at readable =
    data_pop-Answers t a n o f has at env.data_pop env.global_array env.elements readable
