-- ===== src/Ble/Life/Opening.antt =====
-- What Connect of Sources/BLE/ARNETWORKAL_BLENetwork.m leaves of the object and of its link.
use lib_arnetwork_al.Prelude.{
  Bool, List, Option, [], false, none, refl, some, suc, true, ℕ, ◌&&◌, ◌∷◌, ◌≡◌, if◌then◌else◌,
  length, ◌++◌, monitor-append, ◌∙◌, ap, arith,
}
use lib_arnetwork_al.Errors.{
  is_ok, Error, ble_services_discovering, ok, ble_disconnection, ble_connection,
}
use lib_arnetwork_al.Wifi.Bandwidth.{bw_nb_elems}
use lib_arnetwork_al.Ble.{
  is_sal_ok, BleEvent, BleNetwork, Characteristic, SalError, Service, characteristic_configuring,
  characteristics_discovering, not_connected, other_sal_error, sal_ok, set_delegate, registered,
  connected_to, discovered_services,
}
use lib_arnetwork_al.Ble.Connect.{
  discover_characteristics, discover_service, set_ftp_characteristics, set_ftp_one, set_ftp_service,
  set_ftp_services, set_notifications, set_one, Peripheral, find_services, after_events,
  ble_connect, set_ftp, establish, establish_found, established_network, zeros,
  notification_characteristics,
}
use lib_arnetwork_al.Ble.Life.{follow_link, Link, linked, links, serving, unlinked}

-- The object behind Connect: in service, or with neither peripheral nor service.
pub data Stage (sender : Option Service) (n : BleNetwork) (q : ℕ) : Link → Type 0 where
  closed_stage : n.peripheral ≡ none → n.send_service ≡ none → Stage sender n q (linked q)
  open_stage :
      n.peripheral ≡ some q
      → (s : Service) → n.send_service ≡ some s
      → sender ≡ some s
      → (k : ℕ) → n.bw_thread_running ≡ suc k
      → Stage sender n q (serving q)

discover_service-links :
    (is_parrot : Bool) (answer : SalError) (s q : ℕ) (rest : Error × List BleEvent)
    → links rest.1 (linked q) ≡ some (linked q)
    → links (discover_service is_parrot answer s rest).1 (linked q) ≡ some (linked q)
discover_service-links false answer s q rest h = h
discover_service-links true sal_ok s q rest h = h
discover_service-links true characteristics_discovering s q rest h = refl
discover_service-links true characteristic_configuring s q rest h = refl
discover_service-links true not_connected s q rest h = refl
discover_service-links true other_sal_error s q rest h = refl

pub discover-links :
    (ss : List Service) (q : ℕ) → links (discover_characteristics ss).1 (linked q) ≡ some (linked q)
discover-links [] q = refl
discover-links (s ∷ ss) q =
    discover_service-links s.is_parrot s.discovery s.reference q (discover_characteristics ss)
      (discover-links ss q)

set_one-links :
    (notifies : Bool) (answer : SalError) (c q : ℕ) (rest : Error × List ℕ × List BleEvent)
    → links rest.2 (serving q) ≡ some (serving q)
    → links (set_one notifies answer c rest).2 (serving q) ≡ some (serving q)
set_one-links false answer c q rest h = h
set_one-links true answer c q rest h = h

pub set_notifications-links :
    (cs : List Characteristic) (result : Error) (q : ℕ)
    → links (set_notifications cs result).2 (serving q) ≡ some (serving q)
set_notifications-links [] result q = refl
set_notifications-links (c ∷ cs) result q =
    set_one-links c.notifies c.notification c.reference q _ (set_notifications-links cs _ q)

set_ftp_one-links :
    (is_ftp : Bool) (answer : SalError) (c q : ℕ) (rest : Error × List BleEvent)
    → links rest.1 (serving q) ≡ some (serving q)
    → links (set_ftp_one is_ftp answer c rest).1 (serving q) ≡ some (serving q)
set_ftp_one-links false answer c q rest h = h
set_ftp_one-links true sal_ok c q rest h = h
set_ftp_one-links true characteristics_discovering c q rest h = refl
set_ftp_one-links true characteristic_configuring c q rest h = refl
set_ftp_one-links true not_connected c q rest h = refl
set_ftp_one-links true other_sal_error c q rest h = refl

set_ftp_characteristics-links :
    (cs : List Characteristic) (q : ℕ)
    → links (set_ftp_characteristics cs).1 (serving q) ≡ some (serving q)
set_ftp_characteristics-links [] q = refl
set_ftp_characteristics-links (c ∷ cs) q =
    set_ftp_one-links (c.notifies && c.is_ftp) c.ftp_notification c.reference q
      (set_ftp_characteristics cs) (set_ftp_characteristics-links cs q)

set_ftp_service-links :
    (is_parrot : Bool) (own rest : Error × List BleEvent) (q : ℕ)
    → links own.1 (serving q) ≡ some (serving q)
    → links rest.1 (serving q) ≡ some (serving q)
    → links (set_ftp_service is_parrot own rest).1 (serving q) ≡ some (serving q)
set_ftp_service-links false own rest q h k = k
set_ftp_service-links true own rest q h k =
    elim (is_ok own.0)
      as (λ b.
        links (if b then (rest.0, own.1 ++ rest.1) else own).1 (serving q) ≡ some (serving q)) [
          | true ↦ monitor-append follow_link own.1 rest.1 (serving q) (serving q) h ∙ k
          | false ↦ h
        ]

pub set_ftp_services-links :
    (ss : List Service) (q : ℕ) → links (set_ftp_services ss).1 (serving q) ≡ some (serving q)
set_ftp_services-links [] q = refl
set_ftp_services-links (s ∷ ss) q =
    set_ftp_service-links s.is_parrot (set_ftp_characteristics s.characteristics)
      (set_ftp_services ss) q (set_ftp_characteristics-links s.characteristics q)
      (set_ftp_services-links ss q)

set_ftp-links :
    (result : Error) (ss : List Service) (q : ℕ)
    → links (set_ftp result ss).1 (serving q) ≡ some (serving q)
set_ftp-links result ss q =
    elim (is_ok result)
      as (λ b.
        links (if b then set_ftp_services ss else (result, [])).1 (serving q) ≡ some (serving q)) [
          | true ↦ set_ftp_services-links ss q
          | false ↦ refl
        ]

-- What a call of Connect gives.
pub record Opened (p : Peripheral) (n : BleNetwork) (before : Link)
    (out : Option (Error × BleNetwork × List BleEvent)) : Type 0 where
  pub result : Error
  pub after : BleNetwork
  pub events : List BleEvent
  pub link : Link
  pub gives : out ≡ some (result, after, events)
  pub queue : after.recv_array ≡ n.recv_array
  pub retained : after.retains ≡ n.retains
  pub followed : links events before ≡ some link
  pub stage : Stage (find_services p.services none none).0 after p.reference link
  pub opens : is_ok result ≡ true → link ≡ serving p.reference

if-Opened :
    (p : Peripheral) (n : BleNetwork) (before : Link) (b : Bool)
    (x y : Option (Error × BleNetwork × List BleEvent))
    → Opened p n before x
    → (b ≡ false → Opened p n before y)
    → Opened p n before (if b then x else y)
if-Opened p n before true x y h k = h
if-Opened p n before false x y h k = k refl

-- The given indices lie in the receiver's service, if it is found.
abbrev pub LieIn : Option (List ℕ) → Option Service → Type 0
LieIn ids none = Unit {0}
LieIn ids (some r) =
    (cs : List Characteristic) × (notification_characteristics r.characteristics ids ≡ some cs)

abbrev pub AreInService : Peripheral → Option (List ℕ) → Type 0
AreInService p ids = LieIn ids (find_services p.services none none).1

module _ (p : Peripheral) (n : BleNetwork) (apart : n.peripheral ≡ none)
    (mute : n.send_service ≡ none) where
  failed :
      (before : Link) (e : Error) (events : List BleEvent)
      → is_ok e ≡ false
      → links events before ≡ some (linked p.reference)
      → Opened p n before (some (e, record n { recv_notification_characteristics = [] }, events))
  failed before e events bad h = record {
    result = e;
    after = record n { recv_notification_characteristics = [] };
    events = events;
    link = linked p.reference;
    gives = refl;
    queue = refl;
    retained = refl;
    followed = h;
    stage = closed_stage apart mute;
    opens = λ good. absurd (cc);
  }

  after_events-Opened :
      (before link : Link) (events : List BleEvent)
      (out : Option (Error × BleNetwork × List BleEvent))
      → links events before ≡ some link
      → Opened p n link out
      → Opened p n before (after_events events out)
  after_events-Opened before link events out h o = record {
    result = o.result;
    after = o.after;
    events = events ++ o.events;
    link = o.link;
    gives = ap (after_events events) o.gives;
    queue = o.queue;
    retained = o.retained;
    followed = monitor-append follow_link events o.events before link h ∙ o.followed;
    stage = o.stage;
    opens = o.opens;
  }

  module _ (central_manager : Option ℕ) (ids : Option (List ℕ))
      (up : length n.bw_elements_up ≡ bw_nb_elems)
      (down : length n.bw_elements_down ≡ bw_nb_elems) where
    established :
        (found : Option Service × Option Service)
        → (find_services p.services none none).0 ≡ found.0
        → LieIn ids found.1
        → Opened p n (linked p.reference) (
            establish_found central_manager p ids found
              (record n { recv_notification_characteristics = [] }))
    unfolding establish
    established (none, receiver) e fit =
        failed (linked p.reference) ble_services_discovering [] refl refl
    established (some s, none) e fit =
        failed (linked p.reference) ble_services_discovering [] refl refl
    established (some s, some r) e (cs, picked) =
        let set = set_notifications cs ok in
        let ftp = set_ftp set.0 p.services in
        record {
          result = ftp.0;
          after =
              established_network central_manager p.reference s r set.1 (zeros bw_nb_elems)
                (zeros bw_nb_elems) (record n { recv_notification_characteristics = [] });
          events = set_delegate true ∷ (set.2 ++ (registered set.1 ∷ ftp.1));
          link = serving p.reference;
          gives = rw (up, down, picked) refl;
          queue = refl;
          retained = refl;
          followed =
              monitor-append follow_link set.2 (registered set.1 ∷ ftp.1) (serving p.reference)
                (serving p.reference) (set_notifications-links cs ok p.reference)
              ∙ set_ftp-links set.0 p.services p.reference;
          stage = open_stage refl s refl e n.bw_thread_running (omega arith);
          opens = λ good. refl;
        }

    pub connect-Opened :
        AreInService p ids → Opened p n unlinked (ble_connect false central_manager (some p) ids n)
    unfolding ble_connect
    connect-Opened fit =
        let d = discover_characteristics p.services in
        let opening = connected_to p.reference ∷ discovered_services ∷ [] in
        let discovered = discover-links p.services p.reference in
        if-Opened p n unlinked (is_sal_ok p.connection) _ _
          (if-Opened p n unlinked (is_sal_ok p.discovery) _ _
            (if-Opened p n unlinked (is_ok d.0) _ _
              (after_events-Opened unlinked (linked p.reference) (opening ++ d.1) _ discovered
                (established (find_services p.services none none) refl fit))
              (λ bad. failed unlinked d.0 (opening ++ d.1) bad discovered))
            (λ _. failed unlinked ble_disconnection opening refl refl))
          (λ _. failed unlinked ble_connection (connected_to p.reference ∷ []) refl refl)
