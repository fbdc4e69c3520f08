-- ===== src/Mux/Network/Life.antt =====
-- The mux network of a manager from InitMuxNetwork to CloseMuxNetwork.
use lib_arnetwork_al.Prelude.{
  ◌>>=◌, arith, List, Option, [], arith, false, length, none, refl, some, true, ℕ, ◌++◌, ◌>>=◌, ◌∷◌,
  ◌≡◌, ◌≤◌,
}
use lib_arnetwork_al.Platform.{Platform}
use lib_arnetwork_al.Mux.{MuxEvent, MuxObject, mux_set_on_disconnect_callback}
use lib_arnetwork_al.Mux.Buffers.{MuxCall, arrivals, holds, mux_run, releases}
use lib_arnetwork_al.Mux.Conserve.{mux_run-keeps}
use lib_arnetwork_al.Mux.Network.{
  with_mux, with_mux, ContextEvent, MuxManager, allocated_mux_object, channel_opened,
  close_mux_network, freed_mux_object, init_mux_manager, mux_referenced, mux_unreferenced,
  queue_allocated,
}

-- Init, SetOnDisconnectCallback, calls of Receive and PopFrame, and Close: the manager, what happened
-- to the context and to the buffers, and the object that Close freed.
unfoldable pub mux_life :
    Platform
    → (ctx : ℕ) → (queue : Option ℕ) → (callback custom_data : ℕ) → List MuxCall
    → MuxManager
    → Option (MuxManager × List ContextEvent × List MuxEvent × MuxObject)
mux_life p ctx queue callback custom_data cs m = do
  let (result, m, es) = init_mux_manager (some ctx) true queue (some m)
  m ← m
  o ← m.mux_object
  (o, told_of) ← mux_run p cs (mux_set_on_disconnect_callback (some callback) custom_data o)
  (result, m', es') ← close_mux_network (some (record m { mux_object = some o }))
  m' ← m'
  some (m', es ++ es', told_of, o)

-- The object behind Init and SetOnDisconnectCallback.
abbrev prepared : (ctx : ℕ) → (queue : Option ℕ) → (callback custom_data : ℕ) → MuxObject
prepared ctx queue callback custom_data = record {
  ctx = ctx;
  rxbuf_recv = none;
  rxbuf_pop = none;
  rxqueue = queue;
  on_disconnect = some callback;
  on_disconnect_custom_data = custom_data;
  disconnected = false;
}

-- For a context that is not NULL and where calloc gives a block, a whole life of the mux network on a
-- manager returns, for any sequence of calls of Receive and PopFrame in it, with the mux network's
-- table and without an object: the context is referenced and unreferenced once, the object freed, and
-- the buffers that were released, and the one at most that the freed object still held, which nothing
-- releases, are those that the queue gave, in order.
pub mux_life-releases :
    (p : Platform) (ctx : ℕ) (queue : Option ℕ) (callback custom_data : ℕ) (cs : List MuxCall)
    (m : MuxManager)
    → (es : List MuxEvent) × (o : MuxObject) × (mux_life p ctx queue callback custom_data cs m
        ≡ some (
          record { network = with_mux m.network; mux_object = none },
          allocated_mux_object
              ∷ mux_referenced ctx
              ∷ channel_opened ctx
              ∷ queue_allocated ctx
              ∷ mux_unreferenced ctx
              ∷ freed_mux_object
              ∷ [],
          es,
          o,
        ))
      × (length (holds o) ≤ 1)
      × (releases es ++ holds o ≡ arrivals queue cs)
unfolding mux_life init_mux_manager
mux_life-releases p ctx queue callback custom_data cs m =
    let (o, es, ran, one, kept, tells, same) =
      mux_run-keeps p cs (prepared ctx queue callback custom_data) callback (omega arith) refl in
    (es, o, simp (ran, same), one, kept)
