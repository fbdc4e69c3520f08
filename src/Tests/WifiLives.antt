-- ===== src/Tests/WifiLives.antt =====
-- WiFi: managers set up, sized and released.
use lib_arnetwork_al.Manager.Dump.{no_operations}
use lib_arnetwork_al.Prelude.{
  true, List, [], arith, false, none, pos, refl, replicate, some, ◌+◌, ◌∷◌, ◌≡◌,
}
use lib_arnetwork_al.Errors.{ok}
use lib_arnetwork_al.Frame.{Return}
use lib_arnetwork_al.Wifi.{Event, Manager, WifiObject}
use lib_arnetwork_al.Wifi.Receive.{receive}
use lib_arnetwork_al.Wifi.Bandwidth.Window.{IsMeter}
use lib_arnetwork_al.Wifi.Session.{budget, notifications}
use lib_arnetwork_al.Wifi.Session.Run.{IsReady, left}
use lib_arnetwork_al.Wifi.Lifecycle.{Allocation, Mallocs, SetupReplies, new}
use lib_arnetwork_al.Wifi.Lifecycle.Setup.{set_up-IsReady}
use lib_arnetwork_al.Wifi.Lifecycle.Setup.Objects.{AreMallocs, AreOpened, set_up}
use lib_arnetwork_al.Wifi.Lifecycle.Release.{
  GivesBack, delete, delete-new, freed_buffer, freed_object,
}
use lib_arnetwork_al.Platform.{eacces}
use lib_arnetwork_al.Manager.{NetworkManager, init_wifi_network}
use lib_arnetwork_al.Manager.Clean.{EndsClean, init_wifi_network-EndsClean}
use lib_arnetwork_al.Tests.Data.{platform, platform-IsPlatform, fresh, replies, replies-AreReplies}

-- Blocks at 4 KiB and at 8 GiB.
abbrev sender_block : Allocation
sender_block = record { address = 4096; contents = replicate 32 170 }

abbrev receiver_block : Allocation
receiver_block = record { address = 8589934592; contents = replicate 32 170 }

abbrev pub mallocs : Mallocs
mallocs = record {
  sender_object = some fresh;
  sender_buffer = some sender_block;
  receiver_object = some fresh;
  receiver_buffer = some receiver_block;
}

abbrev new_manager : Manager
new_manager = record { sender = none; receiver = none; dump_file = false }

abbrev pub opening : SetupReplies
opening = record {
  socket_created = pos 3;
  pipe = some (pos 4, pos 5);
  send_buffer = pos 1000;
  attach_failed = none;
}

mallocs-AreMallocs : AreMallocs platform mallocs fresh fresh sender_block receiver_block
mallocs-AreMallocs = record {
  sender_object_given = refl;
  sender_buffer_given = refl;
  receiver_object_given = refl;
  receiver_buffer_given = refl;
  sender_size = refl;
  sender_placed = omega arith;
  receiver_size = refl;
  receiver_above = omega arith;
  receiver_placed = omega arith;
  receiver_octets = omega arith;
}

opening-AreOpened : AreOpened opening (pos 4) (pos 5)
opening-AreOpened = record {
  socket_open = refl;
  pipe_made = refl;
  pipe_open = refl;
  attached = refl;
}

set_up-IsReady_example :
    (m1 : Manager) × (set_up mallocs opening opening (pos 1) 7 70 new_manager
      ≡ ((ok, ok, ok, ok), some m1))
    × (s r : WifiObject) × (m1.sender ≡ some s)
    × (m1.receiver ≡ some r)
    × (budget s r ≡ 1)
    × IsMeter s
    × IsMeter r
    × (code : Return) × (m2 : Manager) × (events : List Event) × (receive platform replies m1
        ≡ some (code, m2, events))
    × (ready' : IsReady platform m2) × (notifications events + left ready' ≡ 1)
set_up-IsReady_example =
    set_up-IsReady mallocs opening opening (pos 1) 7 70 new_manager replies platform-IsPlatform
      mallocs-AreMallocs opening-AreOpened opening-AreOpened replies-AreReplies

-- The receiver's buffer cannot be had.
abbrev short_mallocs : Mallocs
short_mallocs = record mallocs { receiver_buffer = none }

delete-new_example :
    GivesBack
      (delete (new short_mallocs (some new_manager)).1)
      ok
      new_manager
      (freed_buffer 4096 ∷ freed_object ∷ freed_object ∷ [])
delete-new_example = delete-new short_mallocs new_manager refl refl tt

-- As ARNETWORKAL_Manager_New makes it.
abbrev pub empty_manager : NetworkManager
empty_manager = record {
  objects = new_manager;
  operations = no_operations;
  max_ids = 256;
  max_buffer_size = 0;
}

-- The socket of the receiver cannot be bound.
abbrev refused_port : SetupReplies
refused_port = record opening { attach_failed = some eacces }

init_wifi_network-EndsClean_example :
    EndsClean platform false
      (freed_buffer 4096 ∷ freed_object ∷ freed_buffer 8589934592 ∷ freed_object ∷ [])
      (init_wifi_network platform mallocs opening refused_port true (pos 1) (some empty_manager))
init_wifi_network-EndsClean_example =
    init_wifi_network-EndsClean platform mallocs opening refused_port (pos 1) empty_manager refl
      refl refl
