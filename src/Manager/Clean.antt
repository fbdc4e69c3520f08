-- ===== src/Manager/Clean.antt =====
-- What InitWifiNetwork leaves where it fails.
use lib_arnetwork_al.Prelude.{
  ◌⊎◌, arith, Bool, List, Option, [], ap, arith, false, inl, inr, none, not, refl, some, sym, true,
  ℤ, ◌++◌, ◌==◌, ◌∙◌, ◌∷◌, ◌≡◌, ◌⊎◌,
}
use lib_arnetwork_al.Platform.{Platform}
use lib_arnetwork_al.Errors.{is_ok, Error, ok}
use lib_arnetwork_al.Wifi.{Manager, WifiObject, max_data_buffer_size}
use lib_arnetwork_al.Wifi.Lifecycle.{
  Allocation, Mallocs, SetupReplies, attach_error, bind, connect, new, open_descriptors, to_u32,
}
use lib_arnetwork_al.Wifi.Lifecycle.Release.{
  Deleted, GivesBack, IsAllocated, Returned, blocks, closed, delete, freed_buffer, freed_object,
  given, is_free, returned, returned_of, taken, taken_receiver,
}
use lib_arnetwork_al.Manager.{
  Initialised, NetworkManager, and_then, finish_init, init_objects, init_wifi_network, initialised,
  manager_wifi_id_max, refused, wifi_operations,
}

-- Objects that no thread uses, and the blocks that they own.
abbrev pub Owns : Option Manager → Bool → List Returned → Type 0
Owns objects dump_file bs =
    (m : Manager) × (objects ≡ some m)
    × (m.dump_file ≡ dump_file)
    × (is_free m.sender ≡ true)
    × (is_free m.receiver ≡ true)
    × (blocks (returned_of m.sender ++ returned_of m.receiver) ≡ bs)

blocks-append : (rs ts : List Returned) → blocks (rs ++ ts) ≡ blocks rs ++ blocks ts
blocks-append [] ts = refl
blocks-append (closed d ∷ rs) ts = blocks-append rs ts
blocks-append (freed_buffer a ∷ rs) ts = ap (λ r. freed_buffer a ∷ r) (blocks-append rs ts)
blocks-append (freed_object ∷ rs) ts = ap (λ r. freed_object ∷ r) (blocks-append rs ts)

open_descriptors-blocks :
    (env : SetupReplies) (o : WifiObject)
    → (blocks (returned (open_descriptors env o).1) ≡ blocks (returned o))
      × ((open_descriptors env o).1.bw_thread_running ≡ o.bw_thread_running)
open_descriptors-blocks env o = ground arith

and_then-keeps :
    (P : Option Manager → Type 0) (r : Error × Option Manager)
    (next : Option Manager → Error × Option Manager)
    → P r.1
    → ((m : Option Manager) → P m → P (next m).1)
    → P (and_then r next).1
and_then-keeps P (e, m) next h k = (elim e as (λ x. P (and_then (x, m) next).1) [
  | ok ↦ k m h
  | _ ↦ h
])

module _ (m : Manager) (bs : List Returned) (fs : is_free m.sender ≡ true)
    (fr : is_free m.receiver ≡ true)
    (own : blocks (returned_of m.sender ++ returned_of m.receiver) ≡ bs) where
  -- The manager with another sender, or another receiver, of the same blocks.
  sender-Owns :
      (o o' : WifiObject)
      → m.sender ≡ some o
      → blocks (returned o') ≡ blocks (returned o)
      → o'.bw_thread_running ≡ o.bw_thread_running
      → Owns (some (record m { sender = some o' })) m.dump_file bs
  sender-Owns o o' at same thread = (
    record m { sender = some o' },
    refl,
    refl,
    ap (λ n. not (n == 0)) thread ∙ (ap is_free (sym at) ∙ fs),
    fr,
    blocks-append (returned o') (returned_of m.receiver)
        ∙ (ap (λ r. r ++ blocks (returned_of m.receiver)) same
            ∙ (sym (blocks-append (returned o) (returned_of m.receiver))
                ∙ (ap (λ x. blocks (returned_of x ++ returned_of m.receiver)) (sym at) ∙ own))),
  )

  receiver-Owns :
      (o o' : WifiObject)
      → m.receiver ≡ some o
      → blocks (returned o') ≡ blocks (returned o)
      → o'.bw_thread_running ≡ o.bw_thread_running
      → Owns (some (record m { receiver = some o' })) m.dump_file bs
  receiver-Owns o o' at same thread = (
    record m { receiver = some o' },
    refl,
    refl,
    fs,
    ap (λ n. not (n == 0)) thread ∙ (ap is_free (sym at) ∙ fr),
    blocks-append (returned_of m.sender) (returned o')
        ∙ (ap (λ r. blocks (returned_of m.sender) ++ r) same
            ∙ (sym (blocks-append (returned_of m.sender) (returned o))
                ∙ (ap (λ x. blocks (returned_of m.sender ++ returned_of x)) (sym at) ∙ own))),
  )

  connect-Owns :
      (env : SetupReplies) (s : Option WifiObject)
      → m.sender ≡ s
      → Owns (connect env (some m)).1 m.dump_file bs
  unfolding connect
  connect-Owns env none e = rw e (record m { sender = none }, refl, refl, refl, fr, (rw e at own))
  connect-Owns env (some o) e =
      let (same, thread) = open_descriptors-blocks env o in
      let o1 = (open_descriptors env o).1 in
      rw e
        (elim (open_descriptors env o).0
          as (λ x.
            Owns
              (elim x as (λ y. Error × Option Manager) [
                | ok ↦ (
                  attach_error env.attach_failed,
                  some (record m {
                    sender = some (record o1 { socket_buffer_size = env.send_buffer });
                  }),
                )
                | failure ↦ (failure, some (record m { sender = some o1 }))
              ]).1
              m.dump_file bs) [
                | ok ↦
                    sender-Owns o (record o1 { socket_buffer_size = env.send_buffer }) e same thread
                | _ ↦ sender-Owns o o1 e same thread
              ])

  bind-Owns :
      (env : SetupReplies) (t : ℤ) (r : Option WifiObject)
      → m.receiver ≡ r
      → Owns (bind env t (some m)).1 m.dump_file bs
  unfolding bind
  bind-Owns env t none e = rw e (record m { receiver = none }, refl, refl, fs, refl, (rw e at own))
  bind-Owns env t (some o) e =
      let (same, thread) = open_descriptors-blocks env o in
      rw e (
        receiver-Owns o (record (open_descriptors env o).1 { timeout_sec = to_u32 t }) e same
          thread)

connect-keeps :
    (env : SetupReplies) (dump : Bool) (bs : List Returned) (objects : Option Manager)
    → Owns objects dump bs
    → Owns (connect env objects).1 dump bs
connect-keeps env dump bs objects (m, at, d, fs, fr, own) =
    rw (at, ← d) (connect-Owns m bs fs fr own env m.sender refl)

bind-keeps :
    (env : SetupReplies) (t : ℤ) (dump : Bool) (bs : List Returned) (objects : Option Manager)
    → Owns objects dump bs
    → Owns (bind env t objects).1 dump bs
bind-keeps env t dump bs objects (m, at, d, fs, fr, own) =
    rw (at, ← d) (bind-Owns m bs fs fr own env t m.receiver refl)

-- Delete gives back what is owned.
delete-Owns :
    (dump : Bool) (bs : List Returned) (objects : Option Manager)
    → Owns objects dump bs
    → GivesBack (delete objects) ok (record { sender = none; receiver = none; dump_file = dump }) bs
unfolding delete
delete-Owns dump bs objects (m, at, d, fs, fr, own) =
    (returned_of m.sender ++ returned_of m.receiver, rw (at, fs, fr, ← d) refl, own)

module _ (m : Manager) (at_r : m.receiver ≡ none) where
  new-Owns :
      (so : Option WifiObject) (sb : Option Allocation) (ro : Option WifiObject)
      (rb : Option Allocation)
      → IsAllocated sb
      → IsAllocated rb
      → Owns
          (new (given so sb ro rb) (some m)).1
          m.dump_file
          (taken so sb ++ taken_receiver (given so sb ro rb))
  unfolding new
  new-Owns none sb ro rb hs hr =
      (record m { sender = none }, refl, refl, refl, rw at_r refl, rw at_r refl)
  new-Owns (some s) none ro rb hs hr = (_, refl, refl, refl, rw at_r refl, rw at_r refl)
  new-Owns (some s) (some b) none rb hs hr = (_, refl, refl, refl, refl, ground (arith, hs))
  new-Owns (some s) (some b) (some r) none hs hr = (_, refl, refl, refl, refl, ground (arith, hs))
  new-Owns (some s) (some b) (some r) (some c) hs hr =
      (_, refl, refl, refl, refl, ground (arith, hs, hr))

-- The two ends of an initialisation that takes these blocks.
abbrev pub EndsClean : Platform → (dump_file : Bool) → List Returned → Initialised → Type 0
EndsClean p dump_file bs out =
    ((objects : Manager) × (out
        ≡ initialised (record {
          objects = objects;
          operations = wifi_operations;
          max_ids = manager_wifi_id_max;
          max_buffer_size = max_data_buffer_size p;
        }))
      × Owns (some objects) dump_file bs)
    ⊎ ((code : Error) × (released : Deleted) × (out ≡ refused code released)
        × (is_ok code ≡ false)
        × GivesBack released ok (record { sender = none; receiver = none; dump_file = dump_file })
            bs)

finish_init-EndsClean :
    (p : Platform) (dump : Bool) (bs : List Returned) (e : Error) (objects : Option Manager)
    → Owns objects dump bs
    → EndsClean p dump bs (finish_init p (e, objects))
finish_init-EndsClean p dump bs e objects own =
    elim e as (λ x. EndsClean p dump bs (finish_init p (x, objects))) [
      | ok ↦
          (let (m', at, d, fs, fr, held) = own in
            rw at (inl (m', refl, (m', refl, d, fs, fr, held))))
      | failure ↦ inr (failure, delete objects, refl, refl, delete-Owns dump bs objects own)
    ]

-- On a manager without a receiver and with an address, whichever calls of `malloc`, `socket`, `pipe`,
-- `connect` and `bind` fail, InitWifiNetwork ends in one of two ways. Either it returns OK, with
-- objects that own just the blocks that New took, every pointer of the table set, and the network's
-- limits. Or it returns an error that is not OK, behind a Delete that did not wait, left the manager
-- without objects, and freed just the blocks that New took, each once.
pub init_wifi_network-EndsClean :
    (p : Platform) (ms : Mallocs) (env_s env_r : SetupReplies) (t : ℤ) (m : NetworkManager)
    → m.objects.receiver ≡ none
    → IsAllocated ms.sender_buffer
    → IsAllocated ms.receiver_buffer
    → EndsClean p m.objects.dump_file
        (taken ms.sender_object ms.sender_buffer ++ taken_receiver ms)
        (init_wifi_network p ms env_s env_r true t (some m))
unfolding init_wifi_network
init_wifi_network-EndsClean p ms env_s env_r t m at_r hs hr =
    let result = init_objects ms env_s env_r t m.objects in
    finish_init-EndsClean p m.objects.dump_file bs result.0 result.1 owned
  where
    bs : List Returned
    bs = taken ms.sender_object ms.sender_buffer ++ taken_receiver ms

    owned : Owns (init_objects ms env_s env_r t m.objects).1 m.objects.dump_file bs
    owned =
        and_then-keeps (λ o. Owns o m.objects.dump_file bs)
          (and_then (new ms (some m.objects)) (connect env_s)) (bind env_r t)
          (and_then-keeps (λ o. Owns o m.objects.dump_file bs) (new ms (some m.objects))
            (connect env_s)
            (new-Owns m.objects at_r ms.sender_object ms.sender_buffer ms.receiver_object
              ms.receiver_buffer hs hr)
            (connect-keeps env_s m.objects.dump_file bs))
          (bind-keeps env_r t m.objects.dump_file bs)
