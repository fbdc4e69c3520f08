-- ===== src/Wifi/Options/Capacity.antt =====
-- The size that SetSendBufferSize records, and what PushFrame makes of it.
use lib_arnetwork_al.Prelude.{negsuc, pos, ℕ, ◌/◌}
use lib_arnetwork_al.Platform.{Platform}
use lib_arnetwork_al.Frame.{Frame}
use lib_arnetwork_al.Wifi.{WifiObject}
use lib_arnetwork_al.Wifi.Options.{GetReply, get_failed, option_value}

-- The system's value of an option that is a size.
abbrev pub IsSize : GetReply → Type 0
IsSize (option_value (pos n)) = Unit {0}
IsSize (option_value (negsuc n)) = ⊥
IsSize get_failed = Unit {0}

-- What the socket's buffer holds for the code: half of what the system says.
abbrev pub capacity : GetReply → (buffer_size : ℕ) → ℕ
capacity (option_value (pos n)) buffer_size = n / 2
capacity (option_value (negsuc n)) buffer_size = 0
capacity get_failed buffer_size = buffer_size

abbrev resized : ℕ → WifiObject → WifiObject
resized cap o = record o { socket_buffer_size = pos cap }
