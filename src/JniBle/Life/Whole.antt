-- ===== src/JniBle/Life/Whole.antt =====
-- The whole life of an object, and what the virtual machine's book makes of it.
use lib_arnetwork_al.JniBle.Life.Stored.{with_parts}
use lib_arnetwork_al.Prelude.{
  List, Option, [], false, none, refl, some, true, ℕ, ◌++◌, ◌∙◌, ◌∷◌, ◌≡◌,
}
use lib_arnetwork_al.Errors.{ok}
use lib_arnetwork_al.Frame.{Frame}
use lib_arnetwork_al.Wifi.Lifecycle.{Allocation}
use lib_arnetwork_al.JniBle.{
  disconnect_method, freed_object_block, BleManager, JniBleObject, JniEvent, Thread,
  allocated_object, called, deleted_global, deleted_local, disconnect_method, freed_object_block,
  has_env, new_global, new_local, within,
}
use lib_arnetwork_al.JniBle.Object.{object_delete, object_delete_current_frame}
use lib_arnetwork_al.JniBle.Frames.{DataPop, PopReplies}
use lib_arnetwork_al.JniBle.Ledger.{
  ==_refl, has-second, ledger, remove-second, replay, replay-append,
}
use lib_arnetwork_al.JniBle.Life.{
  AllServed, BleCall, IsServed, ble_callback_call, ble_cancel_call, ble_connect_call,
  ble_disconnect_call, ble_life, ble_pop_call, ble_push_call, ble_receive_call, ble_run,
  ble_unlock_call,
}
use lib_arnetwork_al.JniBle.Life.Balance.{IsLive, IsLiveObject, held, replay-within}
use lib_arnetwork_al.JniBle.Life.Steps.{
  BleStep, callback-BleStep, cancel-BleStep, connect-BleStep, disconnect-BleStep, manager_of,
  network_of, receive-BleStep, unlock-BleStep,
}
use lib_arnetwork_al.JniBle.Life.Carry.{pop-BleStep, pop_none-BleStep, push-BleStep}

pop-BleStep_of :
    (t : Thread) (env : PopReplies) (f : Frame) (a : ℕ) (o : JniBleObject)
    (network array : Option ℕ) (elements : Option Allocation)
    → IsLive network array elements
    → IsServed (ble_pop_call t env f)
    → BleStep (ble_pop_call t env f) a (with_parts o network array elements)
pop-BleStep_of t env f a o none array elements live served = absurd live
pop-BleStep_of t env f a o (some n) array elements live (env_there, readable) =
    popped env.data_pop refl
  where
    popped :
        (reply : Option DataPop)
        → env.data_pop ≡ reply
        → BleStep (ble_pop_call t env f) a (with_parts o (some n) array elements)
    popped none e =
        pop_none-BleStep t env f a n (with_parts o (some n) array elements) live refl env_there e
    popped (some d) e =
        pop-BleStep n d o array elements t env f a live env_there d.frame_data e refl
          (λ x h. readable d x e h)

call-BleStep :
    (c : BleCall) (a : ℕ) (o : JniBleObject) → IsLiveObject o → IsServed c → BleStep c a o
call-BleStep (ble_push_call t mem array reply f) a o live (x, bytes, env_there, given, read) =
    let (n, at) =
      network_of o o.java_network o.current_frame_byte_array o.current_frame refl live in
    rw given (push-BleStep t mem reply f a n x bytes o live at env_there read _ refl)
call-BleStep (ble_pop_call t env f) a o live served =
    pop-BleStep_of t env f a o o.java_network o.current_frame_byte_array o.current_frame live served
call-BleStep (ble_receive_call t reply) a o live served =
    let (n, at) =
      network_of o o.java_network o.current_frame_byte_array o.current_frame refl live in
    receive-BleStep a o live t reply n (has_env t) at refl
call-BleStep (ble_unlock_call t) a o live served =
    let (n, at) =
      network_of o o.java_network o.current_frame_byte_array o.current_frame refl live in
    unlock-BleStep a o live t n (has_env t) at refl
call-BleStep (ble_callback_call t callback custom_data) a o live served =
    callback-BleStep a o live t callback custom_data (has_env t) refl
call-BleStep (ble_connect_call t device ids reply) a o live served =
    let (n, at) =
      network_of o o.java_network o.current_frame_byte_array o.current_frame refl live in
    connect-BleStep a o live t device ids reply n (has_env t) at refl
call-BleStep (ble_cancel_call t) a o live served =
    let (n, at) =
      network_of o o.java_network o.current_frame_byte_array o.current_frame refl live in
    cancel-BleStep a o live t n (has_env t) at refl
call-BleStep ble_disconnect_call a o live served = disconnect-BleStep a o live o.on_disconnect refl

-- Any sequence of calls.
pub record BleRun (cs : List BleCall) (a : ℕ) (o : JniBleObject) : Type 0 where
  pub after : JniBleObject
  pub events : List JniEvent
  pub returns : ble_run cs (manager_of a o) ≡ some (manager_of a after, events)
  pub live : IsLiveObject after
  pub balances : replay events (held false o) ≡ some (held false after)

run-BleRun :
    (cs : List BleCall) (a : ℕ) (o : JniBleObject) → IsLiveObject o → AllServed cs → BleRun cs a o
unfolding ble_run
run-BleRun [] a o live served = record {
  after = o;
  events = [];
  returns = refl;
  live = live;
  balances = refl;
}
run-BleRun (c ∷ cs) a o live (served, served') =
    let s = call-BleStep c a o live served in
    let r = run-BleRun cs a s.after s.live served' in
    record {
      after = r.after;
      events = s.events ++ r.events;
      returns = rw (s.returns, r.returns) refl;
      live = r.live;
      balances =
          replay-append s.events r.events (held false o) (held false s.after) s.balances
          ∙ r.balances;
    }

-- What ObjectDelete does.
abbrev pub deletion : ℕ → JniBleObject → List JniEvent
deletion n o =
    called disconnect_method n
    ∷ deleted_global n
    ∷ ((object_delete_current_frame (record o { java_network = none })).1
        ++ (freed_object_block ∷ []))

pub deletion-balance :
    (t : Thread) (o : JniBleObject) (n : ℕ) (array : Option ℕ) (elements : Option Allocation)
    → IsLive (some n) array elements
    → replay
        (within t (deletion n (with_parts o (some n) array elements)))
        (held false (with_parts o (some n) array elements))
      ≡ some (ledger false [] [] [] 0)
deletion-balance t o n none none live =
    replay-within (deletion n (with_parts o (some n) none none)) (n ∷ []) [] [] [] 1 0
      (λ b. rw (==_refl n, ==_refl n) refl) t
deletion-balance t o n none (some e) live = absurd live
deletion-balance t o n (some a) none live =
    replay-within (deletion n (with_parts o (some n) (some a) none)) (a ∷ n ∷ []) [] [] [] 1 0
      (λ b. rw (has-second a n [], remove-second a n [], ==_refl a) refl) t
deletion-balance t o n (some a) (some e) live =
    replay-within (deletion n (with_parts o (some n) (some a) (some e))) (a ∷ n ∷ []) []
      (e.address ∷ []) [] 1 0
      (λ b.
        rw (has-second a n [], remove-second a n [], ==_refl a, ==_refl e.address, ==_refl a) refl)
      t

-- Delete gives back the Java object, the array and its elements, and the object itself.
delete-balance :
    (t : Thread) (o : JniBleObject) (network array : Option ℕ) (elements : Option Allocation)
    → IsLive network array elements
    → (es : List JniEvent) × (object_delete (some (with_parts o network array elements)) ≡ some es)
      × (replay (within t es) (held false (with_parts o network array elements))
          ≡ some (ledger false [] [] [] 0))
delete-balance t o none array elements live = absurd live
delete-balance t o (some n) array elements live = (
  deletion n (with_parts o (some n) array elements),
  refl,
  deletion-balance t o n array elements live,
)

-- The object that ObjectNew makes, and what it takes.
abbrev pub fresh : (manager reference : ℕ) → JniBleObject
fresh manager reference = record {
  java_network = some reference;
  manager = manager;
  current_frame_byte_array = none;
  current_frame = none;
  on_disconnect = none;
  on_disconnect_custom_data = 0;
}

abbrev pub new_events : (class java reference : ℕ) → List JniEvent
new_events class java reference =
    allocated_object
    ∷ new_local class
    ∷ new_local java
    ∷ deleted_local class
    ∷ new_global java reference
    ∷ deleted_local java
    ∷ []

pub new-balance :
    (t : Thread) (class java n a : ℕ)
    → replay (within t (new_events class java n)) (ledger false [] [] [] 0)
      ≡ some (held false (fresh a n))
new-balance t class java n a =
    replay-within (new_events class java n) [] (n ∷ []) [] [] 0 1
      (λ b. rw (remove-second java class [], ==_refl java, ==_refl java) refl) t

-- Where every thread of New and Delete has an environment, New's malloc, class, Java object and global
-- reference are given, and the calls between are served, New, the calls and Delete return, Delete
-- returns OK and leaves the manager without an object, and the virtual machine's book, which refuses a
-- use or a release of what is not held, takes all the events from an empty book to an empty one:
-- every reference, every array's elements and the object are given back, each once, and no thread
-- stays attached.
pub ble_life-balances :
    (t t' : Thread) (raw : JniBleObject) (class java n : ℕ) (cs : List BleCall) (m : BleManager)
    → has_env t ≡ true
    → has_env t' ≡ true
    → AllServed cs
    → (es : List JniEvent) × (ble_life t t'
          (record {
            block = some raw;
            class_found = some class;
            new_object = some java;
            global_network = some n;
          })
          cs
          m
        ≡ some (ok, some (record m { ble_object = none }), es))
      × (replay es (ledger false [] [] [] 0) ≡ some (ledger false [] [] [] 0))
unfolding ble_life
ble_life-balances t t' raw class java n cs m env env' served =
    let born = fresh m.address n in
    let r = run-BleRun cs m.address born tt served in
    let (es, ran, back) =
      delete-balance t' r.after r.after.java_network r.after.current_frame_byte_array
        r.after.current_frame r.live in
    (
      within t (new_events class java n) ++ (r.events ++ within t' es),
      rw (env, r.returns, env', ran) refl,
      replay-append (within t (new_events class java n)) (r.events ++ within t' es)
            (ledger false [] [] [] 0) (held false born) (new-balance t class java n m.address)
          ∙ (replay-append r.events (within t' es) (held false born) (held false r.after) r.balances
              ∙ back),
    )
