-- ===== src/JniBle/Life/Carry.antt =====
-- What PushFrame and PopFrame on a live object do to the virtual machine's book.
use lib_arnetwork_al.Prelude.{
  Bool, List, Option, [], add_word, arith, false, leb-true, ltb, none, refl, some, sub_word, true,
  u32_mod, ℕ, ◌%◌, ◌++◌, ◌+◌, ◌-◌, ◌∙◌, ◌∷◌, ◌≡◌,
}
use lib_arnetwork_al.Platform.{Memory}
use lib_arnetwork_al.Frame.{
  Frame, Return, bad_frame, bad_parameters, buffer_empty, buffer_full, default, header_size,
  network_error, no_data_available,
}
use lib_arnetwork_al.Wifi.Lifecycle.{Allocation}
use lib_arnetwork_al.JniBle.{
  JavaMethod, JniBleObject, JniEvent, Thread, ble_header_size, called, deleted_local, has_env,
  media_mtu, new_global, new_local, pop_frame_method, push_frame_method, within,
}
use lib_arnetwork_al.JniBle.Object.{
  object_store_current_frame, elements_event, object_delete_current_frame,
}
use lib_arnetwork_al.JniBle.Frames.{
  DataPop, PopReplies, data_pop_events, jni_pop_frame, jni_push_frame, popped_frame, read_elements,
  region,
}
use lib_arnetwork_al.JniBle.Ledger.{==_refl, has, has-second, ledger, replay, replay-append}
use lib_arnetwork_al.JniBle.Life.{IsReadable, ble_call, ble_pop_call, ble_push_call}
use lib_arnetwork_al.JniBle.Life.Balance.{
  IsLive, IsLiveObject, addresses, held, references, replay-called,
}
use lib_arnetwork_al.JniBle.Life.Stored.{replay-data_pop, replay-stored, with_parts}
use lib_arnetwork_al.JniBle.Life.Steps.{BleStep, called-BleStep, balance}

has-network : (n : ℕ) (array : Option ℕ) → has n (references array ++ (n ∷ [])) ≡ true
has-network n none = rw (==_refl n) refl
has-network n (some x) = has-second x n []

module _ (t : Thread) (mem : Memory) (reply : Return) (f : Frame) (a n l : ℕ) (bytes : List ℕ)
    (o : JniBleObject) (live : IsLiveObject o) (at : o.java_network ≡ some n)
    (env : has_env t ≡ true)
    (read : region mem f (sub_word f.size header_size % u32_mod) ≡ some bytes) where
  abbrev push_method : JavaMethod
  push_method = push_frame_method f.type f.id f.seq (sub_word f.size header_size % u32_mod) bytes

  pub push-BleStep :
      (too_long : Bool)
      → ltb media_mtu (add_word (sub_word f.size header_size) ble_header_size) ≡ too_long
      → BleStep (ble_push_call t mem (some l) reply f) a o
  unfolding ble_call jni_push_frame
  push-BleStep true long = record {
    after = o;
    events = within t (new_local l ∷ deleted_local l ∷ []);
    returns = rw (env, read, long) refl;
    live = live;
    balances = balance t (new_local l ∷ deleted_local l ∷ []) o o (λ b. rw (==_refl l) refl);
  }
  push-BleStep false long = record {
    after = o;
    events = within t (new_local l ∷ called push_method n ∷ deleted_local l ∷ []);
    returns = rw (env, read, long, at) refl;
    live = live;
    balances =
        balance t (new_local l ∷ called push_method n ∷ deleted_local l ∷ []) o o
          (λ b. rw (at, has-network n o.current_frame_byte_array, ==_refl l) refl);
  }

pub pop_none-BleStep :
    (t : Thread) (env : PopReplies) (f : Frame) (a n : ℕ) (o : JniBleObject)
    → IsLiveObject o
    → o.java_network ≡ some n
    → has_env t ≡ true
    → env.data_pop ≡ none
    → BleStep (ble_pop_call t env f) a o
unfolding ble_call jni_pop_frame
pop_none-BleStep t env f a n o live at env_there e =
    called-BleStep a o live (ble_pop_call t env f) t pop_frame_method n at (simp (env_there, at, e))

module _ (n : ℕ) (d : DataPop) (o : JniBleObject) (ha : Option ℕ) (he : Option Allocation) where
  abbrev before : JniBleObject
  before = with_parts o (some n) ha he

  no_data-balance :
      (b : Bool)
      → d.frame_data ≡ none
      → replay (called pop_frame_method n ∷ data_pop_events d) (held b before)
        ≡ some (held b before)
  no_data-balance b e =
      replay-append (called pop_frame_method n ∷ []) (data_pop_events d) (held b before)
        (held b before) (replay-called pop_frame_method before n ha b refl refl)
      ∙ replay-data_pop d none b (references ha ++ (n ∷ [])) (addresses he) e

  abbrev stored_of : (array g : ℕ) → Option Allocation → List JniEvent
  stored_of array g elements =
      called pop_frame_method n
      ∷ (data_pop_events d
          ++ (((object_delete_current_frame before).1
                ++ (new_global array g ∷ elements_event g elements))
              ++ (deleted_local array ∷ [])))

  stored-balance :
      (b : Bool) (array g : ℕ) (elements : Option Allocation)
      → d.frame_data ≡ some array
      → IsLive (some n) ha he
      → replay (stored_of array g elements) (held b before)
        ≡ some (held b (with_parts o (some n) (some g) elements))
  stored-balance b array g elements e live =
      let stored =
        (object_delete_current_frame before).1
        ++ (new_global array g ∷ elements_event g elements) in
      replay-append (called pop_frame_method n ∷ [])
        (data_pop_events d ++ (stored ++ (deleted_local array ∷ []))) (held b before)
        (held b before) (replay-called pop_frame_method before n ha b refl refl)
      ∙ (replay-append (data_pop_events d) (stored ++ (deleted_local array ∷ [])) (held b before)
            (ledger b (references ha ++ (n ∷ [])) (addresses he) (array ∷ []) 1)
            (replay-data_pop d (some array) b (references ha ++ (n ∷ [])) (addresses he) e)
          ∙ (replay-append stored (deleted_local array ∷ []) _ _
                (replay-stored b array g n o ha he elements live)
              ∙ rw (==_refl array) refl))

  read_elements-reads :
      (f : Frame) (x type seq : ℕ) (payload : List ℕ)
      → (f' : Frame) × (read_elements d.frame_id
            (some (record { address = x; contents = type ∷ seq ∷ payload }))
            f
          ≡ some f')
  read_elements-reads f x type seq payload =
      rw
        (
          leb-true x x (omega arith),
          leb-true x (x + 1) (omega arith),
          (let i : x - x ≡ 0 = omega arith in i),
          (let i : x + 1 - x ≡ 1 = omega arith in i),
        )
        (_, refl)

  -- What PopFrame gives back of the frame.
  popped-cases :
      (elements : Option Allocation) (f : Frame) (g : ℕ) (result : Return)
      → IsReadable (some g) result elements
      → (f' : Frame) × (popped_frame result d.frame_id elements f ≡ some f')
  unfolding popped_frame
  popped-cases elements f g default (x, type, seq, payload, gives) =
      let (f', read) = read_elements-reads f x type seq payload in (f', rw (gives, read) refl)
  popped-cases elements f g bad_frame h = (_, refl)
  popped-cases elements f g buffer_full h = (_, refl)
  popped-cases elements f g buffer_empty h = (_, refl)
  popped-cases elements f g no_data_available h = (_, refl)
  popped-cases elements f g bad_parameters h = (_, refl)
  popped-cases elements f g network_error h = (_, refl)

  stored-object :
      (x g : ℕ) (elements : Option Allocation)
      → object_store_current_frame x (some g) elements before
        ≡ some (
          with_parts o (some n) (some g) elements,
          (object_delete_current_frame before).1 ++ (new_global x g ∷ elements_event g elements),
        )
  unfolding object_store_current_frame
  stored-object x g elements =
      elim ha
        as (λ ha.
          object_store_current_frame x (some g) elements (with_parts o (some n) ha he)
          ≡ some (
            with_parts o (some n) (some g) elements,
            (object_delete_current_frame (with_parts o (some n) ha he)).1
                ++ (new_global x g ∷ elements_event g elements),
          )) [ none ↦ refl | some y ↦ refl ]

  module _ (t : Thread) (env : PopReplies) (f : Frame) (a : ℕ) (live : IsLive (some n) ha he)
      (has : has_env t ≡ true) where
    pub pop-BleStep :
        (array : Option ℕ)
        → env.data_pop ≡ some d
        → d.frame_data ≡ array
        → ((array : ℕ)
            → d.frame_data ≡ some array
            → IsReadable env.global_array d.result env.elements)
        → BleStep (ble_pop_call t env f) a before
    unfolding ble_call jni_pop_frame
    pop-BleStep none e e' readable = record {
      after = before;
      events = within t (called pop_frame_method n ∷ data_pop_events d);
      returns = rw (has, e, e') (rw e' refl);
      live = live;
      balances =
          balance t (called pop_frame_method n ∷ data_pop_events d) before before
            (λ b. no_data-balance b e');
    }
    pop-BleStep (some x) e e' readable = stored env.global_array refl (readable x e')
      where
        stored :
            (global : Option ℕ)
            → env.global_array ≡ global
            → IsReadable global d.result env.elements
            → BleStep (ble_pop_call t env f) a before
        stored none e'' h = absurd h
        stored (some g) e'' h =
            let (f', read) = popped-cases env.elements f g d.result h in
            record {
              after = with_parts o (some n) (some g) env.elements;
              events = within t (stored_of x g env.elements);
              returns = rw (has, e, e', e'', stored-object x g env.elements, read) (rw e' refl);
              live = tt;
              balances =
                  balance t (stored_of x g env.elements) before
                    (with_parts o (some n) (some g) env.elements)
                    (λ b. stored-balance b x g env.elements e' live);
            }
