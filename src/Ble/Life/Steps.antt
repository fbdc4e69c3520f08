-- ===== src/Ble/Life/Steps.antt =====
-- What each call of Sources/BLE/ARNETWORKAL_BLENetwork.m between Connect and Delete does to the object
-- and to its link.
use lib_arnetwork_al.Prelude.{
  Bool, List, Option, false, if◌then◌else◌, some, true, ℕ, ◌∙◌, ◌≡◌, ◌∷◌, refl, add_u32, length,
  ◌++◌,
}
use lib_arnetwork_al.Platform.{Memory}
use lib_arnetwork_al.Frame.{Frame, Return, default, bad_frame}
use lib_arnetwork_al.Frame.Codec.{Message}
use lib_arnetwork_al.Ble.{BleEvent, BleNetwork, Service, wrote, NotificationData}
use lib_arnetwork_al.Ble.Frames.{ble_push_frame}
use lib_arnetwork_al.Ble.Calls.{on_ble_disconnect}
use lib_arnetwork_al.Ble.Queue.{AllHaveHeads, queue_answer, head_answer, ble_pop_frame_refines}
use lib_arnetwork_al.Ble.Life.{
  network_pop, network_receive, network_callback, network_lost, IsAnswered, Link, linked, links,
  network_push, none, serving, [], message, NetworkCall, network_step,
}
use lib_arnetwork_al.Ble.Life.Opening.{Stage, closed_stage, open_stage}

-- An object between Connect and Delete.
pub record IsHeld (sender : Option Service) (q : ℕ) (n : BleNetwork) (link : Link) : Type 0 where
  pub stage : Stage sender n q link
  pub heads : AllHaveHeads n.recv_array
  pub retained : n.retains ≡ 2

-- What becomes of it.
abbrev pub Steps : Option Service → ℕ → Link → Option (BleNetwork × List BleEvent) → Type 0
Steps sender q link out =
    (n' : BleNetwork) × (es : List BleEvent) × (out ≡ some (n', es))
    × (links es link ≡ some link)
    × IsHeld sender q n' link

-- The stage looks at four fields.
Stage-kept :
    {sender : Option Service} {n : BleNetwork} {q : ℕ} {link : Link} (n' : BleNetwork)
    → n'.peripheral ≡ n.peripheral
    → n'.send_service ≡ n.send_service
    → n'.bw_thread_running ≡ n.bw_thread_running
    → Stage sender n q link
    → Stage sender n' q link
Stage-kept n' a b c (closed_stage apart mute) = closed_stage (a ∙ apart) (b ∙ mute)
Stage-kept n' a b c (open_stage at s serves found k runs) =
    open_stage (a ∙ at) s (b ∙ serves) found k (c ∙ runs)

-- pushFrame.
abbrev Pushed : BleNetwork → Link → Option (Return × BleNetwork × List BleEvent) → Type 0
Pushed n link out =
    (r : Return) × (k : ℕ) × (es : List BleEvent) × (out
      ≡ some (r, record n { bw_current_up = k }, es))
    × (links es link ≡ some link)

if-Pushed :
    (n : BleNetwork) (link : Link) (b : Bool) (x y : Option (Return × BleNetwork × List BleEvent))
    → Pushed n link x
    → Pushed n link y
    → Pushed n link (if b then x else y)
if-Pushed n link true x y h k = h
if-Pushed n link false x y h k = k

-- Behind the test of the size.
written-Pushed :
    (written : Bool) (n : BleNetwork) (bytes : List ℕ) (c : Option ℕ) (link : Link)
    → links (wrote bytes c ∷ []) link ≡ some link
    → Pushed n link (
        if written
        then some (
          default,
          record n { bw_current_up = add_u32 n.bw_current_up (length bytes) },
          wrote bytes c ∷ [],
        )
        else some (bad_frame, n, wrote bytes c ∷ []))
written-Pushed true n bytes c link h = (_, _, _, refl, h)
written-Pushed false n bytes c link h = (_, n.bw_current_up, _, refl, h)

push-Pushed :
    (mem : Memory) (written : Bool) (n : BleNetwork) (f : Frame) (sender : Option Service) (q : ℕ)
    (link : Link)
    → Stage sender n q link
    → IsAnswered sender (network_push mem written f)
    → Pushed n link (ble_push_frame mem written n f)
unfolding ble_push_frame
push-Pushed mem written n f sender q (linked q') (closed_stage apart mute) (payload, read, given) =
    rw (read, mute)
      (if-Pushed (record n { send_service = none }) (linked q) _ _ _
        (bad_frame, n.bw_current_up, [], refl, refl)
        (written-Pushed written (record n { send_service = none }) (f.type ∷ f.seq ∷ payload) none
          (linked q) refl))
push-Pushed mem written n f sender q link (open_stage at s serves found k runs)
      (payload, read, given) =
    let (c, there) = given s found in
    rw (read, serves, there)
      (if-Pushed (record n { send_service = some s }) (serving q) _ _ _
        (bad_frame, n.bw_current_up, [], refl, refl)
        (written-Pushed written (record n { send_service = some s }) (f.type ∷ f.seq ∷ payload)
          (some c.reference) (serving q) refl))

-- popFrame.
abbrev Popped : BleNetwork → Option (Return × BleNetwork × Frame) → Type 0
Popped n out =
    (r : Return) × (rest : List NotificationData) × (k : ℕ) × (f' : Frame) × (out
      ≡ some (r, record n { recv_array = rest; bw_current_down = k }, f'))
    × AllHaveHeads rest

answer-Popped :
    (n : BleNetwork) (f : Frame) (queue : List NotificationData)
    → AllHaveHeads queue
    → Popped n (some (queue_answer queue (record n { recv_array = queue }) f))
answer-Popped n f [] h = (_, [], n.bw_current_down, _, refl, h)
answer-Popped n f (d ∷ rest) h = head_Popped (message d)
  where
    head_Popped :
        (m : Option Message)
        → Popped n (some (head_answer d rest m (record n { recv_array = d ∷ rest }) f))
    head_Popped none = (_, rest, n.bw_current_down, _, refl, h.1)
    head_Popped (some m) = (_, rest, _, _, refl, h.1)

append-AllHaveHeads :
    (ds es : List NotificationData) → AllHaveHeads ds → AllHaveHeads es → AllHaveHeads (ds ++ es)
append-AllHaveHeads [] es h k = k
append-AllHaveHeads (d ∷ ds) es (h, hs) k = (h, append-AllHaveHeads ds es hs k)

-- A notice of CoreBluetooth.
lost-links :
    (n : BleNetwork) (sender : Option Service) (q : ℕ) (link : Link) (callback : Option ℕ)
    → Stage sender n q link
    → links (on_ble_disconnect (record n { on_disconnect = callback })) link ≡ some link
lost-links n sender q link none s = refl
lost-links n sender q (linked q') (some c) (closed_stage apart mute) = refl
lost-links n sender q link (some c) (open_stage at s serves found k runs) = refl

pub network_step-Steps :
    (c : NetworkCall) (sender : Option Service) (q : ℕ) (n : BleNetwork) (link : Link)
    → IsHeld sender q n link
    → IsAnswered sender c
    → Steps sender q link (network_step c n)
network_step-Steps (network_push mem written f) sender q n link h a =
    let (r, k, es, gives, follows) = push-Pushed mem written n f sender q link h.stage a in
    (
      record n { bw_current_up = k },
      es,
      rw gives refl,
      follows,
      record {
        stage = Stage-kept (record n { bw_current_up = k }) refl refl refl h.stage;
        heads = h.heads;
        retained = h.retained;
      },
    )
network_step-Steps (network_pop f) sender q n link h a =
    let (pops, holds) = ble_pop_frame_refines n f h.heads in
    let (r, rest, k, f', gives, heads) = answer-Popped n f n.recv_array h.heads in
    (
      record n { recv_array = rest; bw_current_down = k },
      [],
      rw (pops ∙ gives) refl,
      refl,
      record {
        stage =
            Stage-kept (record n { recv_array = rest; bw_current_down = k }) refl refl refl h.stage;
        heads = heads;
        retained = h.retained;
      },
    )
network_step-Steps (network_receive answer ds) sender q n link h a = (
  _,
  [],
  refl,
  refl,
  record {
    stage = Stage-kept (record n { recv_array = n.recv_array ++ ds }) refl refl refl h.stage;
    heads = append-AllHaveHeads n.recv_array ds h.heads a;
    retained = h.retained;
  },
)
network_step-Steps (network_callback callback custom_data) sender q n link h a = (
  _,
  [],
  refl,
  refl,
  record {
    stage =
        Stage-kept
          (record n { on_disconnect = some callback; on_disconnect_custom_data = custom_data }) refl
          refl refl h.stage;
    heads = h.heads;
    retained = h.retained;
  },
)
network_step-Steps network_lost sender q n link h a =
    (_, _, refl, lost-links n sender q link n.on_disconnect h.stage, h)
