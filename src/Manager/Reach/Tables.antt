-- ===== src/Manager/Reach/Tables.antt =====
-- The table behind each initialisation.
use lib_arnetwork_al.Prelude.{
  Bool, List, Option, ap, false, if◌then◌else◌, none, refl, some, sym, true, ℕ, ℤ, ◌∙◌, ◌∷◌, ◌≡◌,
}
use lib_arnetwork_al.Platform.{Platform}
use lib_arnetwork_al.Errors.{Error, ok}
use lib_arnetwork_al.Wifi.{Manager}
use lib_arnetwork_al.Wifi.Lifecycle.{Mallocs, SetupReplies}
use lib_arnetwork_al.Manager.{
  push_frame_function, Initialised, NetworkManager, Operation, Operations, ble_network, finish_init,
  function_of, init_objects, init_wifi_network, initialised, mux_network, refused, wifi_network,
  wifi_operations,
}
use lib_arnetwork_al.Manager.Ble.{BleRequest, ble_operations, init_ble_network}
use lib_arnetwork_al.Mux.Network.{ContextEvent, MuxManager, init_mux_manager, mux_operations}
use lib_arnetwork_al.Wifi.Session.Run.{some-injective}
use lib_arnetwork_al.Manager.Reach.Choices.{
  Chosen, chose_ble, chose_mux, kind_of, latest, network_of, pointer_of, provides,
}

pub wifi_pointer :
    (op : Operation) → pointer_of op wifi_operations ≡ some (function_of wifi_network op)
wifi_pointer op =
    elim op as (λ op. pointer_of op wifi_operations ≡ some (function_of wifi_network op)) [
      | push_frame_function ↦ refl
      | _ ↦ refl
    ]

pub mux_pointer :
    (op : Operation) (o : Operations)
    → pointer_of op (mux_operations o) ≡ (
        if provides chose_mux (kind_of op)
        then some (function_of mux_network op)
        else pointer_of op o)
mux_pointer op o =
    elim op
      as (λ op. pointer_of op (mux_operations o) ≡ (
        if provides chose_mux (kind_of op)
        then some (function_of mux_network op)
        else pointer_of op o)) [ push_frame_function ↦ refl | _ ↦ refl ]

pub ble_pointer :
    (op : Operation) (o : Operations)
    → pointer_of op (ble_operations o) ≡ (
        if provides chose_ble (kind_of op)
        then some (function_of ble_network op)
        else pointer_of op o)
ble_pointer op o =
    elim op
      as (λ op. pointer_of op (ble_operations o) ≡ (
        if provides chose_ble (kind_of op)
        then some (function_of ble_network op)
        else pointer_of op o)) [ push_frame_function ↦ refl | _ ↦ refl ]

-- The table behind each initialisation that succeeds.
abbrev pub WifiTable : Initialised → Type 0
WifiTable (initialised m) = m.operations ≡ wifi_operations
WifiTable (refused code released) = Unit {0}

finish_init-WifiTable :
    (p : Platform) (e : Error) (objects : Option Manager) → WifiTable (finish_init p (e, objects))
finish_init-WifiTable p e objects = elim e as (λ x. WifiTable (finish_init p (x, objects))) [
  | ok ↦ elim objects as (λ o. WifiTable (finish_init p (ok, o))) [ none ↦ tt | some o ↦ refl ]
  | _ ↦ tt
]

pub init_wifi_network-WifiTable :
    (p : Platform) (ms : Mallocs) (env_s env_r : SetupReplies) (addr : Bool) (t : ℤ)
    (m : NetworkManager)
    → WifiTable (init_wifi_network p ms env_s env_r addr t (some m))
unfolding init_wifi_network
init_wifi_network-WifiTable p ms env_s env_r false t m = tt
init_wifi_network-WifiTable p ms env_s env_r true t m =
    let (result, objects) = init_objects ms env_s env_r t m.objects in
    finish_init-WifiTable p result objects

pub mux_table :
    (m : MuxManager) (o : MuxManager) (ctx : Option ℕ) (allocated : Bool) (queue : Option ℕ)
    (es : List ContextEvent)
    → init_mux_manager ctx allocated queue (some m) ≡ (ok, some o, es)
    → o.network.operations ≡ mux_operations m.network.operations
unfolding init_mux_manager
mux_table m o none allocated queue es h = absurd (cc)
mux_table m o (some ctx) false queue es h = absurd (cc)
mux_table m o (some ctx) true queue es h =
    sym (ap (λ (x : MuxManager). x.network.operations) (some-injective (ap (λ x. x.1) h)))

pub ble_table :
    (core_bluetooth : Bool) (created connected : Error) (m m' : NetworkManager)
    (requests : List BleRequest)
    → init_ble_network core_bluetooth created connected (some m) ≡ (ok, some m', requests)
    → m'.operations ≡ ble_operations m.operations
ble_table false created connected m m' requests h = absurd (cc)
ble_table true ok ok m m' requests h =
    sym (ap (λ (x : NetworkManager). x.operations) (some-injective (ap (λ x. x.1) h)))
ble_table true ok connected m m' requests h = absurd (cc)
ble_table true created connected m m' requests h = absurd (cc)

-- A table that takes a network's functions for what it provides, over one that holds the latest.
pub chosen_pointer :
    (c : Chosen) (cs : List Chosen) (op : Operation) (table before after : Operations)
    → after ≡ table
    → pointer_of op table ≡ (
        if provides c (kind_of op)
        then some (function_of (network_of c) op)
        else pointer_of op before)
    → pointer_of op before ≡ latest op cs
    → pointer_of op after ≡ latest op (c ∷ cs)
chosen_pointer c cs op table before after e step rest =
    ap (pointer_of op) e
    ∙ (step
        ∙ ap (λ r. if provides c (kind_of op) then some (function_of (network_of c) op) else r)
            rest)
