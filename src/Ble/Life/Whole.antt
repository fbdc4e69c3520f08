-- ===== src/Ble/Life/Whole.antt =====
-- The whole life of an object of Sources/BLE/ARNETWORKAL_BLENetwork.m, and its end on the main thread.
use lib_arnetwork_al.Prelude.{
  ==_true, true, zero, suc, Bool, List, Option, false, none, refl, some, ℕ, ◌≡◌,
}
use lib_arnetwork_al.Errors.{Error, ok}
use lib_arnetwork_al.Ble.{BleNetwork, Service, BleEvent}
use lib_arnetwork_al.Ble.Calls.{ble_disconnect, ble_network_delete}
use lib_arnetwork_al.Ble.Life.{Link, gone, links, with_thread, linked, suc}
use lib_arnetwork_al.Ble.Life.Opening.{Stage, closed_stage, open_stage}
use lib_arnetwork_al.Ble.Life.Steps.{Steps}

-- Delete.
abbrev pub Closed : Link → Option (Error × Option (Option BleNetwork) × List BleEvent) → Type 0
Closed link out =
    (es : List BleEvent) × (out ≡ some (ok, some none, es)) × (links es link ≡ some gone)

delete-Closed_apart :
    (started : Bool) (q : ℕ) (n : BleNetwork) (k : ℕ)
    → n.peripheral ≡ none
    → n.bw_thread_running ≡ k
    → Closed (linked q) (ble_network_delete false started (some (some (with_thread started n))))
unfolding ble_network_delete ble_disconnect
delete-Closed_apart started q n zero apart runs = rw (runs, apart) (_, refl, refl)
delete-Closed_apart false q n (suc k) apart runs = rw (runs, apart) (_, refl, refl)
delete-Closed_apart true q n (suc k) apart runs = rw (runs, apart) (_, refl, refl)

pub delete-Closed :
    (started : Bool) (sender : Option Service) (q : ℕ) (n : BleNetwork) (link : Link)
    → Stage sender n q link
    → Closed link (ble_network_delete false started (some (some (with_thread started n))))
unfolding ble_network_delete ble_disconnect
delete-Closed started sender q n (linked q') (closed_stage apart mute) =
    delete-Closed_apart started q n n.bw_thread_running apart refl
delete-Closed false sender q n link (open_stage at s serves found k runs) =
    rw (runs, at) (_, refl, rw (==_true q q refl) refl)
delete-Closed true sender q n link (open_stage at s serves found zero runs) =
    rw (runs, at) (_, refl, rw (==_true q q refl) refl)
delete-Closed true sender q n link (open_stage at s serves found (suc k) runs) =
    rw (runs, at) (_, refl, rw (==_true q q refl) refl)
