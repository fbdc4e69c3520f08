-- ===== src/Manager/BleOpening.antt =====
-- ARNETWORKAL_Manager_InitBLENetwork of Sources/ARNETWORKAL_Manager.c over the functions of
-- Sources/BLE/ARNETWORKAL_BLENetwork.m that it calls.
use mathlib.Core.Path.{subst}
use lib_arnetwork_al.Prelude.{
  Bool, List, Option, [], false, if◌then◌else◌, none, some, true, ℕ, ◌++◌, ◌>>=◌, ◌≡◌, length, refl,
  ◌∙◌, ap, monitor-append, zero, suc,
}
use lib_arnetwork_al.Wifi.Bandwidth.{bw_nb_elems}
use lib_arnetwork_al.Ble.Life.Opening.{
  Stage, connect-Opened, closed_stage, open_stage, AreInService,
}
use lib_arnetwork_al.Ble.{Service, BleEvent, BleNetwork}
use lib_arnetwork_al.Ble.Life.{with_thread, follow_link, Link, gone, links, serving, unlinked}
use lib_arnetwork_al.Ble.Life.Whole.{Closed, delete-Closed}
use lib_arnetwork_al.Errors.{Error, is_ok, ok, alloc}
use lib_arnetwork_al.Ble.Connect.{Peripheral, find_services, ble_connect}
use lib_arnetwork_al.Ble.Calls.{
  ble_network_connect, ble_network_delete, ble_network_new, init_network,
}
use lib_arnetwork_al.Manager.{NetworkManager}
use lib_arnetwork_al.Manager.Ble.{
  BleRequest, ble_operations, init_ble_network, manager_ble_id_max, manager_ble_max_buffer_size,
}

-- The manager's table and its object, behind a call, with its result and the messages.
abbrev pub Opening : Type 0
Opening = Error × Option NetworkManager × Option (Option BleNetwork) × List BleEvent

-- What follows New: Connect if it returned OK; else its result is not looked at.
abbrev connect_created :
    (on_main_thread : Bool)
    → (central_manager : Option ℕ) → Option Peripheral
    → (ids : Option (List ℕ)) → Error × Option (Option BleNetwork)
    → Option (Error × Option (Option BleNetwork) × List BleEvent)
connect_created on_main_thread central_manager p ids (created, none) = some (created, none, [])
connect_created on_main_thread central_manager p ids (created, some held) =
    if is_ok created
    then (ble_network_connect on_main_thread central_manager p ids held
        >>= λ (connected, held', es). some (connected, some held', es))
    else some (ok, some held, [])

-- What follows both: Delete if one did not return OK. The bandwidth thread does not run yet.
abbrev delete_failed :
    (on_main_thread : Bool)
    → Error × Option NetworkManager × List BleRequest
    → Option (Option BleNetwork)
    → List BleEvent
    → Option Opening
delete_failed on_main_thread (result, m, requests) held es =
    if is_ok result then some (result, m, held, es) else do
      (deleted, left, es') ← ble_network_delete on_main_thread false held
      some (result, m, left, es ++ es')

-- ARNETWORKAL_Manager_InitBLENetwork of a manager that is not NULL, where the library has CoreBluetooth;
-- `object` is what initWithManager: gives.
unfoldable pub open_ble_network :
    (on_main_thread : Bool)
    → (object : Option BleNetwork) → (central_manager : Option ℕ) → Option Peripheral
    → (ids : Option (List ℕ)) → NetworkManager
    → Option BleNetwork
    → Option Opening
open_ble_network on_main_thread object central_manager p ids m before = do
  let created = ble_network_new object (some before)
  (connected, held, es) ← connect_created on_main_thread central_manager p ids created
  delete_failed on_main_thread (init_ble_network true created.0 connected (some m)) held es

-- How it ends, by what Connect returned and did, where there was an object to connect.
pub data EndsOpening (p : Peripheral) (m : NetworkManager)
    (connected : Option (Option (Error × BleNetwork × List BleEvent)))
    : Option Opening → Type 0 where
  ends_open :
      (n : BleNetwork) (es : List BleEvent)
      → connected ≡ some (some (ok, n, es))
      → n.peripheral ≡ some p.reference
      → n.retains ≡ 2
      → links es unlinked ≡ some (serving p.reference)
      → EndsOpening p m connected (
          some (
            ok,
            some (record m {
              operations = ble_operations m.operations;
              max_ids = manager_ble_id_max;
              max_buffer_size = manager_ble_max_buffer_size;
            }),
            some (some n),
            es,
          ))
  ends_deleted :
      (e : Error) (n : BleNetwork) (es es' : List BleEvent)
      → connected ≡ some (some (e, n, es))
      → is_ok e ≡ false
      → links (es ++ es') unlinked ≡ some gone
      → EndsOpening p m connected (some (e, some m, some none, es ++ es'))
  ends_unmade : connected ≡ none → EndsOpening p m connected (some (alloc, some m, some none, []))

-- initWithManager:, or no memory for it.
abbrev pub made : Option (List ℕ × List ℕ) → Option BleNetwork
made none = none
made (some (up, down)) = some (init_network up down)

-- What Connect gives of the object that New makes, off the main thread.
abbrev pub connect_made :
    Option (List ℕ × List ℕ)
    → (central_manager : Option ℕ) → Peripheral
    → (ids : Option (List ℕ)) → Option (Option (Error × BleNetwork × List BleEvent))
connect_made none central_manager p ids = none
connect_made (some (up, down)) central_manager p ids =
    some (
      ble_connect false central_manager (some p) ids
        (record (init_network up down) { retains = 2 }))

abbrev pub WholeRings : Option (List ℕ × List ℕ) → Type 0
WholeRings none = Unit {0}
WholeRings (some (up, down)) = (length up ≡ bw_nb_elems) × (length down ≡ bw_nb_elems)

with_thread-not_started : (n : BleNetwork) → with_thread false n ≡ n
with_thread-not_started n =
    elim n.bw_thread_running as (λ k. (elim k [ zero ↦ n | suc j ↦ n ]) ≡ n) [
      | zero ↦ refl
      | suc j ↦ refl
    ]

delete-undoes :
    (sender : Option Service) (q : ℕ) (n : BleNetwork) (link : Link)
    → Stage sender n q link
    → Closed link (ble_network_delete false false (some (some n)))
delete-undoes sender q n link h =
    subst (λ n'. Closed link (ble_network_delete false false (some (some n'))))
      (with_thread-not_started n) (delete-Closed false sender q n link h)

serving-peripheral :
    {sender : Option Service} {q : ℕ} {n : BleNetwork} {link : Link}
    → Stage sender n q link
    → link ≡ serving q
    → n.peripheral ≡ some q
serving-peripheral (closed_stage apart mute) e = absurd (cc)
serving-peripheral (open_stage at s serves found k runs) e = at

-- Behind a New that returned OK, and a Connect that returned whatever.
connected-EndsOpening :
    (p : Peripheral) (m : NetworkManager) (n : BleNetwork) (es : List BleEvent) (link : Link)
    (e : Error)
    → links es unlinked ≡ some link
    → Stage (find_services p.services none none).0 n p.reference link
    → n.retains ≡ 2
    → (is_ok e ≡ true → link ≡ serving p.reference)
    → EndsOpening p m
        (some (some (e, n, es)))
        (delete_failed false (init_ble_network true ok e (some m)) (some (some n)) es)
unfolding ble_network_delete
connected-EndsOpening p m n es link e follows stage two =
    let closed = delete-undoes _ p.reference n link stage in
    elim e
      as (λ x.
        (is_ok x ≡ true → link ≡ serving p.reference)
        → EndsOpening p m (some (some (x, n, es)))
            (delete_failed false (init_ble_network true ok x (some m)) (some (some n)) es)) [
              | ok ↦ (λ opens.
                  ends_open n es refl (serving-peripheral stage (opens refl)) two
                    (follows ∙ ap some (opens refl)))
              | failure ↦ (λ opens.
                  (let (es', gives, ends) = closed in
                    rw gives (
                      ends_deleted failure n es es' refl refl
                        (monitor-append follow_link es es' unlinked link follows ∙ ends))))
            ]

-- Off the main thread, on a manager without a BLE object and with a peripheral that is not nil,
-- where the indices that it is given, if it is given any, lie in the receiver's service, if that is
-- found, InitBLENetwork returns, whatever the peripheral and its services answer, where
-- initWithManager: gives an object with both rings or none. It ends in one of three ways. If Connect
-- returned OK, it returns OK with the table and the limits of the BLE network set, and the object as
-- Connect left it, retained twice, connected to the peripheral and the BLE manager's delegate,
-- behind Connect's messages. If Connect returned another error, it returns that error, with the
-- table as it was and no object: the messages are Connect's and then Delete's, and follow the link
-- to its end, with the delegate taken back and the peripheral disconnected from where it was in
-- service, and both references to the object given back, each once. If there was no object, it
-- returns ALLOC with the table as it was and no message.
pub open_ble_network-EndsOpening :
    (rings : Option (List ℕ × List ℕ)) (central_manager : Option ℕ) (p : Peripheral)
    (ids : Option (List ℕ)) (m : NetworkManager)
    → WholeRings rings
    → AreInService p ids
    → EndsOpening p m
        (connect_made rings central_manager p ids)
        (open_ble_network false (made rings) central_manager (some p) ids m none)
unfolding open_ble_network ble_network_delete
open_ble_network-EndsOpening none central_manager p ids m whole fit = ends_unmade refl
open_ble_network-EndsOpening (some (up, down)) central_manager p ids m (whole_up, whole_down) fit =
    let n : BleNetwork = record (init_network up down) { retains = 2 } in
    let o = connect-Opened p n refl refl central_manager ids whole_up whole_down fit in
    rw o.gives (
      connected-EndsOpening p m o.after o.events o.link o.result o.followed o.stage o.retained
        o.opens)
