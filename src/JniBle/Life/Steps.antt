-- ===== src/JniBle/Life/Steps.antt =====
-- What a call that is served does to a live object and to the virtual machine's book.
use lib_arnetwork_al.Prelude.{
  Bool, List, Option, [], false, none, refl, some, true, ℕ, ◌++◌, ◌∷◌, ◌≡◌,
}
use lib_arnetwork_al.Errors.{Error}
use lib_arnetwork_al.Frame.{Return}
use lib_arnetwork_al.Wifi.Lifecycle.{Allocation}
use lib_arnetwork_al.JniBle.{
  BleManager, JavaMethod, JniBleObject, JniEvent, Thread, called, cancel_method, connect_method,
  has_env, receive_method, unlock_method, within,
}
use lib_arnetwork_al.JniBle.Calls.{native_on_disconnect}
use lib_arnetwork_al.JniBle.Ledger.{replay}
use lib_arnetwork_al.JniBle.Life.{
  BleCall, ble_call, ble_callback_call, ble_cancel_call, ble_connect_call, ble_disconnect_call,
  ble_receive_call, ble_unlock_call,
}
use lib_arnetwork_al.JniBle.Life.Balance.{
  IsLive, IsLiveObject, addresses, held, references, replay-called, replay-within,
}

abbrev pub manager_of : ℕ → JniBleObject → BleManager
manager_of a o = record { address = a; ble_object = some o }

-- One call, from one object to the next.
pub record BleStep (c : BleCall) (a : ℕ) (o : JniBleObject) : Type 0 where
  pub after : JniBleObject
  pub events : List JniEvent
  pub returns : ble_call c (manager_of a o) ≡ some (manager_of a after, events)
  pub live : IsLiveObject after
  pub balances : replay events (held false o) ≡ some (held false after)

-- The body of a call does not depend on the attachment.
pub balance :
    (t : Thread) (es : List JniEvent) (o o' : JniBleObject)
    → ((b : Bool) → replay es (held b o) ≡ some (held b o'))
    → replay (within t es) (held false o) ≡ some (held false o')
balance t es o o' h =
    replay-within es (references o.current_frame_byte_array ++ references o.java_network)
      (references o'.current_frame_byte_array ++ references o'.java_network)
      (addresses o.current_frame) (addresses o'.current_frame) 1 1 h t

-- A live object has a Java object.
pub network_of :
    (o : JniBleObject) (network array : Option ℕ) (elements : Option Allocation)
    → o.java_network ≡ network
    → IsLive network array elements
    → (n : ℕ) × (o.java_network ≡ some n)
network_of o none array elements e h = absurd h
network_of o (some n) array elements e h = (n, e)

-- A call that calls one method of the Java object, if it has an environment.
module _ (a : ℕ) (o : JniBleObject) (live : IsLiveObject o) where
  quiet-BleStep :
      (c : BleCall) (t : Thread)
      → ble_call c (manager_of a o) ≡ some (manager_of a o, within t [])
      → BleStep c a o
  quiet-BleStep c t ran = record {
    after = o;
    events = within t [];
    returns = ran;
    live = live;
    balances = balance t [] o o (λ b. refl);
  }

  pub called-BleStep :
      (c : BleCall) (t : Thread) (method : JavaMethod) (n : ℕ)
      → o.java_network ≡ some n
      → ble_call c (manager_of a o) ≡ some (manager_of a o, within t (called method n ∷ []))
      → BleStep c a o
  called-BleStep c t method n e ran = record {
    after = o;
    events = within t (called method n ∷ []);
    returns = ran;
    live = live;
    balances =
        balance t (called method n ∷ []) o o
          (λ b. replay-called method o n o.current_frame_byte_array b e refl);
  }

  pub receive-BleStep :
      (t : Thread) (reply : Return) (n : ℕ) (env : Bool)
      → o.java_network ≡ some n
      → has_env t ≡ env
      → BleStep (ble_receive_call t reply) a o
  unfolding ble_call
  receive-BleStep t reply n false e env = quiet-BleStep (ble_receive_call t reply) t (rw env refl)
  receive-BleStep t reply n true e env =
      called-BleStep (ble_receive_call t reply) t receive_method n e (rw (env, e) refl)

  pub unlock-BleStep :
      (t : Thread) (n : ℕ) (env : Bool)
      → o.java_network ≡ some n
      → has_env t ≡ env
      → BleStep (ble_unlock_call t) a o
  unfolding ble_call
  unlock-BleStep t n false e env = quiet-BleStep (ble_unlock_call t) t (rw env refl)
  unlock-BleStep t n true e env =
      called-BleStep (ble_unlock_call t) t unlock_method n e (rw (env, e) refl)

  pub cancel-BleStep :
      (t : Thread) (n : ℕ) (env : Bool)
      → o.java_network ≡ some n
      → has_env t ≡ env
      → BleStep (ble_cancel_call t) a o
  unfolding ble_call
  cancel-BleStep t n false e env = quiet-BleStep (ble_cancel_call t) t (rw env refl)
  cancel-BleStep t n true e env =
      called-BleStep (ble_cancel_call t) t cancel_method n e (rw (env, e) refl)

  pub connect-BleStep :
      (t : Thread) (device ids : ℕ) (reply : Error) (n : ℕ) (env : Bool)
      → o.java_network ≡ some n
      → has_env t ≡ env
      → BleStep (ble_connect_call t device ids reply) a o
  unfolding ble_call
  connect-BleStep t device ids reply n false e env =
      quiet-BleStep (ble_connect_call t device ids reply) t (rw env refl)
  connect-BleStep t device ids reply n true e env =
      called-BleStep (ble_connect_call t device ids reply) t (connect_method device ids) n e
        (rw (env, e) refl)

  pub callback-BleStep :
      (t : Thread) (callback : Option ℕ) (data_of : ℕ) (env : Bool)
      → has_env t ≡ env
      → BleStep (ble_callback_call t callback data_of) a o
  unfolding ble_call
  callback-BleStep t callback data_of false env =
      quiet-BleStep (ble_callback_call t callback data_of) t (rw env refl)
  callback-BleStep t callback data_of true env = record {
    after = record o { on_disconnect = callback; on_disconnect_custom_data = data_of };
    events = within t [];
    returns = rw env refl;
    live = live;
    balances = balance t [] o o (λ b. refl);
  }

  pub disconnect-BleStep :
      (callback : Option ℕ) → o.on_disconnect ≡ callback → BleStep ble_disconnect_call a o
  unfolding ble_call
  disconnect-BleStep callback e = record {
    after = o;
    events = native_on_disconnect (some o);
    returns = refl;
    live = live;
    balances = notified callback e;
  }
    where
      notified :
          (callback : Option ℕ)
          → o.on_disconnect ≡ callback
          → replay (native_on_disconnect (some o)) (held false o) ≡ some (held false o)
      notified none e = rw e refl
      notified (some k) e = rw e refl
