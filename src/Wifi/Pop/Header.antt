-- ===== src/Wifi/Pop/Header.antt =====
-- The bytes that a valid receiver has not popped, and the frame header read from them.
use lib_arnetwork_al.Prelude.{
  ℕ, zero, suc, ◌+◌, ◌-◌, ◌≡◌, ap, ◌∙◌, some, List, [], ◌∷◌, arith, length, take, drop, get_elem?,
  leb-true, length-drop, length-take_of_le,
}
use lib_arnetwork_al.Platform.{Platform, bytes_u32, read_u32}
use lib_arnetwork_al.Frame.{Frame, header_size}
use lib_arnetwork_al.Wifi.{WifiObject, IsReceiver, unread, offset, memory}
use lib_arnetwork_al.Wifi.Pop.{read_header}

get_elem?-window :
    (bytes : List ℕ) (off size k : ℕ) {x : ℕ}
    → get_elem? (drop off (take size bytes)) k ≡ some x
    → get_elem? bytes (off + k) ≡ some x
get_elem?-window bytes zero zero k e = ground arith
get_elem?-window bytes (suc off) zero k e = ground arith
get_elem?-window [] zero (suc size) k e = ground arith
get_elem?-window [] (suc off) (suc size) k e = ground arith
get_elem?-window (b ∷ bs) (suc off) (suc size) k e =
    ap (get_elem? (b ∷ bs)) {x = suc off + k} {y = suc (off + k)} (omega arith)
    ∙ get_elem?-window bs off size k e
get_elem?-window (b ∷ bs) zero (suc size) zero e = e
get_elem?-window (b ∷ bs) zero (suc size) (suc k) e =
    ap (get_elem? (b ∷ bs)) {x = zero + suc k} {y = suc k} (omega arith)
    ∙ (ap (get_elem? bs) {x = k} {y = zero + k} (omega arith) ∙ get_elem?-window bs zero size k e)

module _ {p : Platform} (o : WifiObject) (v : IsReceiver p o) where
  pub length-unread : length (unread o) + o.current_frame ≡ o.buffer + o.size
  length-unread =
      omega
        (arith, v, length-drop (offset o) (take o.size o.bytes), length-take_of_le o.size o.bytes)

  -- The byte at `currentFrame + k`.
  memory-unread :
      (a k : ℕ) {x : ℕ}
      → a ≡ o.current_frame + k
      → get_elem? (unread o) k ≡ some x
      → memory o a ≡ some x
  memory-unread a k e holds =
      rw
        (
          leb-true o.buffer a (omega (arith, v)),
          (let i : a - o.buffer ≡ offset o + k = omega (arith, v) in i),
        )
        (get_elem?-window o.bytes (offset o) o.size k holds)

  -- The header, where the unread bytes have one.
  pub read_header-unread :
      (f : Frame) (t i s a b c d : ℕ) (tail : List ℕ)
      → unread o ≡ t ∷ i ∷ s ∷ a ∷ b ∷ c ∷ d ∷ tail
      → read_header p o f
        ≡ some (
          record {
            type = t;
            id = i;
            seq = s;
            size = p.dtohl (bytes_u32 a b c d);
            data_ptr = o.current_frame + header_size;
          },
          record o { current_frame = o.current_frame + header_size },
        )
  unfolding read_header read_u32
  read_header-unread f t i s a b c d tail e = ground (
    arith,
    v,
    memory-unread o.current_frame 0 {x = t} (omega arith) (rw e),
    memory-unread (o.current_frame + 1) 1 {x = i} (omega arith) (rw e),
    memory-unread (o.current_frame + 2) 2 {x = s} (omega arith) (rw e),
    memory-unread (o.current_frame + 3) 3 {x = a} (omega arith) (rw e),
    memory-unread (o.current_frame + 4) 4 {x = b} (omega arith) (rw e),
    memory-unread (o.current_frame + 5) 5 {x = c} (omega arith) (rw e),
    memory-unread (o.current_frame + 6) 6 {x = d} (omega arith) (rw e),
  )
