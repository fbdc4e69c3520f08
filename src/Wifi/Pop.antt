-- ===== src/Wifi/Pop.antt =====
-- ARNETWORKAL_WifiNetwork_PopFrame of Sources/Wifi/ARNETWORKAL_WifiNetwork.c.
pub mod Header
pub mod Refine
pub mod Safety
pub mod Loop
use lib_arnetwork_al.Prelude.{
  ℕ, Option, some, List, [], ◌∷◌, ltb, ◌==◌, add_word, sub_word, if◌then◌else◌, ◌>>=◌,
}
use lib_arnetwork_al.Platform.{Platform, read_u32}
use lib_arnetwork_al.Frame.{
  Frame, Return, default, buffer_empty, bad_frame, header_size, reset_frame,
}
use lib_arnetwork_al.Wifi.{WifiObject, Manager, Event, dumped, frame_popped, memory}

-- `wifiRecvObj->currentFrame += n`
abbrev pub advance : ℕ → WifiObject → WifiObject
advance n o = record o { current_frame = add_word o.current_frame n }

-- `reset the reading pointer to the start of the buffer`
abbrev pub rewind : WifiObject → WifiObject
rewind o = record o { current_frame = o.buffer; size = 0 }

-- The five fields, read one after the other.
unfoldable pub read_header : Platform → WifiObject → Frame → Option (Frame × WifiObject)
read_header p o f = do
  type ← memory o o.current_frame
  let o = advance 1 o
  id ← memory o o.current_frame
  let o = advance 1 o
  seq ← memory o o.current_frame
  let o = advance 1 o
  size ← read_u32 (memory o) o.current_frame
  let o = advance 4 o
  some (
    record f { type = type; id = id; seq = seq; size = p.dtohl size; data_ptr = o.current_frame },
    o,
  )

-- ARNETWORKAL_WifiNetwork_PopFrame. Pointers are compared as addresses, and a `size_t` that is
-- subtracted from one wraps.
unfoldable pub pop_frame :
    Platform → Manager → Frame → Option (Return × Manager × Frame × List Event)
unfolding read_header
pop_frame p m f = do
  o ← m.receiver
  let end = add_word o.buffer o.size
  if ltb (sub_word end header_size) o.current_frame
      then some (
        if o.current_frame == end then buffer_empty else bad_frame,
        record m { receiver = some (rewind o) },
        reset_frame f,
        [],
      )
      else do
        (f, o) ← read_header p o f
        if ltb (sub_word end (sub_word f.size header_size)) o.current_frame
            then some (bad_frame, record m { receiver = some (rewind o) }, reset_frame f, [])
            else do
              let o = record o {
                current_frame = sub_word (add_word o.current_frame f.size) header_size;
              }
              some (
                default,
                record m { receiver = some o },
                f,
                if m.dump_file
                    then dumped frame_popped (sub_word o.current_frame f.size) f.size ∷ []
                    else [],
              )
