-- ===== src/Tests/PopRuns.antt =====
-- The networks' receivers, popped until there is nothing more.
use lib_arnetwork_al.Prelude.{[], arith, false, none, pos, refl, some, suc, zero, ℕ, ◌∷◌, ◌≡◌}
use lib_arnetwork_al.Frame.{buffer_empty, parse}
use lib_arnetwork_al.Wifi.Pop.Loop.{HeadsHaveSize}
use lib_arnetwork_al.Mux.{MuxObject}
use lib_arnetwork_al.Ble.{BleNetwork}
use lib_arnetwork_al.Ble.Calls.{init_network}
use lib_arnetwork_al.Ble.Frames.{ble_pop_frame, notified_frame}
use lib_arnetwork_al.Manager.Popping.{PopsAll, pop_until}
use lib_arnetwork_al.Manager.Popping.Networks.{
  ble_popping, mux_popping, networks-PopsAll, wifi_popping,
}
use lib_arnetwork_al.Tests.Data.{
  both_bytes, first_bytes, no_frame, platform, platform-IsPlatform, holding, both_received,
  both_received-IsReceiver,
}

both_bytes-HeadsHaveSize : (fuel : ℕ) → HeadsHaveSize platform fuel both_bytes
unfolding parse
both_bytes-HeadsHaveSize zero = tt
both_bytes-HeadsHaveSize (suc zero) = (omega arith, tt)
both_bytes-HeadsHaveSize (suc (suc zero)) = (omega arith, (omega arith, tt))
both_bytes-HeadsHaveSize (suc (suc (suc fuel))) = (omega arith, (omega arith, tt))

abbrev mux_object : MuxObject
mux_object = record {
  ctx = 1;
  rxbuf_recv = some (record { address = 9000; bytes = first_bytes });
  rxbuf_pop = none;
  rxqueue = some 2;
  on_disconnect = none;
  on_disconnect_custom_data = 0;
  disconnected = false;
}

abbrev ble_notifications : BleNetwork
ble_notifications = record (init_network [] []) {
  recv_array =
      record { scanned_id = some 10; address = 9000; value = 2 ∷ 1 ∷ 7 ∷ [] }
      ∷ record { scanned_id = some 11; address = 9100; value = 4 ∷ 1 ∷ [] }
      ∷ [];
}

networks-PopsAll_example :
    PopsAll (wifi_popping platform platform-IsPlatform) 18 holding no_frame
    × PopsAll (mux_popping platform (pos 0)) 2 mux_object no_frame
    × PopsAll ble_popping 3 ble_notifications no_frame
networks-PopsAll_example =
    networks-PopsAll platform platform-IsPlatform (pos 0) holding mux_object ble_notifications
      no_frame (both_received, refl, both_received-IsReceiver, both_bytes-HeadsHaveSize)
      (tt, (tt, tt))

-- Two frames, and then nothing.
ble_popped_both :
    pop_until ble_pop_frame 3 ble_notifications no_frame
    ≡ some (buffer_empty, record ble_notifications { recv_array = []; bw_current_down = 5 }, 2)
unfolding pop_until ble_pop_frame notified_frame
ble_popped_both = refl
