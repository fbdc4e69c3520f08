-- ===== src/Wifi/Push/Copy.antt =====
-- The copy that ARNETWORKAL_WifiNetwork_PushFrame makes of a frame's fields.
use lib_arnetwork_al.Prelude.{
  ℕ, ◌+◌, ◌≤◌, ◌<◌, ◌≡◌, ◌∙◌, some, List, [], ◌∷◌, ◌++◌, append_assoc, arith, length, take, u32_mod,
  word_mod,
}
use lib_arnetwork_al.Platform.{Platform, Memory, read_bytes, write_bytes-append, u32_bytes}
use lib_arnetwork_al.Frame.{Frame, header_size, encode}
use lib_arnetwork_al.Wifi.{WifiObject}
use lib_arnetwork_al.Wifi.Push.{append_field, data_size, copy_frame}

-- The object with `n` bytes filled.
abbrev pub filled : WifiObject → List ℕ → ℕ → WifiObject
filled o bytes n = record o { bytes = bytes; current_frame = o.buffer + n; size = n }

module _ (o : WifiObject) (cap : ℕ) (small : cap < u32_mod)
    (placed : o.buffer + cap < word_mod) where
  append_field-filled :
      (bytes src : List ℕ) (n : ℕ)
      → length bytes ≡ cap
      → n + length src ≤ cap
      → (bytes' : List ℕ) × (append_field src (filled o bytes n)
          ≡ some (filled o bytes' (n + length src)))
        × (length bytes' ≡ cap)
        × (take (n + length src) bytes' ≡ take n bytes ++ src)
  unfolding append_field
  append_field-filled bytes src n len fits =
      let (bytes', wrote, len', put) = write_bytes-append bytes n src (omega arith) in
      (bytes', ground (arith, wrote), len' ∙ len, put)

  -- All five fields.
  pub copy_frame-filled :
      (p : Platform) (mem : Memory) (f : Frame) (bytes payload : List ℕ) (n : ℕ)
      → length bytes ≡ cap
      → read_bytes mem f.data_ptr (data_size f) ≡ some payload
      → f.size ≡ header_size + length payload
      → n + f.size ≤ cap
      → (bytes' : List ℕ) × (copy_frame p mem f (filled o bytes n)
          ≡ some (filled o bytes' (n + f.size)))
        × (length bytes' ≡ cap)
        × (take (n + f.size) bytes' ≡ take n bytes ++ encode p f.type f.id f.seq f.size payload)
  unfolding copy_frame
  copy_frame-filled p mem f bytes payload n len read whole fits =
      let (b1, e1, l1, t1) = append_field-filled bytes (f.type ∷ []) n len (omega arith) in
      let (b2, e2, l2, t2) = append_field-filled b1 (f.id ∷ []) (n + 1) l1 (omega arith) in
      let (b3, e3, l3, t3) = append_field-filled b2 (f.seq ∷ []) (n + 1 + 1) l2 (omega arith) in
      let (b4, e4, l4, t4) =
        append_field-filled b3 (u32_bytes (p.htodl f.size)) (n + 1 + 1 + 1) l3 (omega arith) in
      let (b5, e5, l5, t5) = append_field-filled b4 payload (n + 1 + 1 + 1 + 4) l4 (omega arith) in
      let all : n + 1 + 1 + 1 + 4 + length payload ≡ n + f.size = omega arith in
      (
        b5,
        rw (e1, e2, e3, e4, read, e5, all),
        l5,
        rw (← all, t5, t4, t3, t2, t1) (simp append_assoc),
      )

pub filled_self :
    (o : WifiObject) → o.current_frame ≡ o.buffer + o.size → o ≡ filled o o.bytes o.size
filled_self o e = λ i. record o { current_frame = e i }
