-- ===== src/Wifi/Bandwidth.antt =====
-- ARNETWORKAL_WifiNetwork_GetBandwidth and the loop of ARNETWORKAL_WifiNetwork_BandwidthThread, of
-- Sources/Wifi/ARNETWORKAL_WifiNetwork.c.
pub mod Window
pub mod Average
use lib_arnetwork_al.Prelude.{
  ℕ, ◌+◌, ◌*◌, ◌/◌, ◌%◌, Bool, Option, none, some, List, [], ◌∷◌, length, set, ltb, add_u32,
  if◌then◌else◌, ◌>>=◌,
}
use lib_arnetwork_al.Platform.{Errno, etimedout}
use lib_arnetwork_al.Errors.{Error, ok, bad_parameter}
use lib_arnetwork_al.Wifi.{WifiObject, Manager}

-- ARNETWORKAL_BW_PROGRESS_EACH_SEC and ARNETWORKAL_BW_NB_ELEMS
abbrev pub bw_progress_each_sec : ℕ
bw_progress_each_sec = 1

abbrev pub bw_nb_elems : ℕ
bw_nb_elems = 10

-- `wifiObj->bw_current += size`, by Send and Receive, once for each of some sizes.
abbrev pub count : List ℕ → WifiObject → WifiObject
count [] o = o
count (n ∷ ns) o = count ns (record o { bw_current = add_u32 o.bw_current n })

-- One object's part of a round: the index moves on, the counter goes there and starts again.
unfoldable pub progress : WifiObject → Option WifiObject
progress o =
    let index = (o.bw_index + 1) % bw_nb_elems in
    if ltb index (length o.bw_elements)
    then some (record o {
      bw_index = index;
      bw_elements = set o.bw_elements index o.bw_current;
      bw_current = 0;
    })
    else none

-- How `ARSAL_Sem_Timedwait` ends.
pub data Wait : Type 0 where
  woken : Wait
  wait_failed : Errno → Wait

-- One wait: the sizes that are sent and received meanwhile, and its end.
pub record Period : Type 0 where
  pub sent_sizes : List ℕ
  pub received_sizes : List ℕ
  pub end : Wait

-- The loop, on the sender and the receiver, as far as the waits go. A wait that ends otherwise than
-- by its timeout is the last.
unfoldable pub bandwidth_loop :
    List Period → WifiObject → WifiObject → Option (WifiObject × WifiObject)
bandwidth_loop [] sender reader = some (sender, reader)
bandwidth_loop (w ∷ ws) sender reader =
    let sender = count w.sent_sizes sender in
    let reader = count w.received_sizes reader in
    elim w.end [
      | wait_failed etimedout ↦
          (progress sender >>= λ s. progress reader >>= λ r. bandwidth_loop ws s r)
      | _ ↦ some (sender, reader)
    ]

-- The sum of the elements, in a `uint32_t`.
abbrev pub sum_elements : ℕ → List ℕ → ℕ
sum_elements acc [] = acc
sum_elements acc (x ∷ xs) = sum_elements (add_u32 acc x) xs

abbrev pub average : WifiObject → ℕ
average o = sum_elements 0 o.bw_elements / (bw_nb_elems * bw_progress_each_sec)

-- ARNETWORKAL_WifiNetwork_GetBandwidth: the arguments are whether the two pointers are not NULL, and
-- the results what is written through them.
unfoldable pub get_bandwidth : Option Manager → Bool → Bool → Error × Option ℕ × Option ℕ
get_bandwidth none up down = (bad_parameter, none, none)
get_bandwidth (some m) up down = elim m.sender [
  | none ↦ (bad_parameter, none, none)
  | some sender ↦ elim m.receiver [
    | none ↦ (bad_parameter, none, none)
    | some reader ↦ (
      ok,
      if up then some (average sender) else none,
      if down then some (average reader) else none,
    )
  ]
]
