-- ===== src/Frame/Codec.antt =====
-- Frames as bytes: the encoding and the parser.
use lib_arnetwork_al.Prelude.{
  ℕ, ◌+◌, ◌≤◌, ◌<◌, ◌≡◌, ap, List, [], ◌∷◌, ◌++◌, arith, length, length-append, drop, drop-append,
  ltb-false, u32_mod, AllBytes,
}
use lib_arnetwork_al.Platform.{Platform, IsPlatform, bytes_u32-u32_bytes}
use lib_arnetwork_al.Frame.{header_size, encode, got, parse}

-- A frame as its sender means it.
pub record Message : Type 0 where
  pub type : ℕ
  pub id : ℕ
  pub seq : ℕ
  pub payload : List ℕ

-- The size that goes into the head.
abbrev pub message_size : Message → ℕ
message_size g = header_size + length g.payload

-- The head's fields and the data are bytes, and the size is a `uint32_t` that a buffer's size can be
-- added to.
pub record IsMessage (g : Message) : Type 0 where
  pub type_byte : g.type < 256
  pub id_byte : g.id < 256
  pub seq_byte : g.seq < 256
  pub octets : AllBytes g.payload
  pub sized : message_size g + 65536 ≤ u32_mod

abbrev pub encode_message : Platform → Message → List ℕ
encode_message p g = encode p g.type g.id g.seq (message_size g) g.payload

pub length-encode_message :
    (p : Platform) (g : Message) → length (encode_message p g) ≡ message_size g
length-encode_message p g = omega arith

-- A frame at the front of a datagram parses to its own fields, with what follows it left.
pub parse-encode :
    {p : Platform} (g : Message) (rest : List ℕ)
    → IsPlatform p
    → IsMessage g
    → parse p (encode_message p g ++ rest) ≡ got g.type g.id g.seq (message_size g) rest
unfolding parse
parse-encode {p} g rest ip v =
    rw
      (
        bytes_u32-u32_bytes (p.htodl (message_size g))
            (ip.htodl-lt (message_size g) (omega (arith, v))),
        ip.dtohl-htodl (message_size g) (omega (arith, v)),
        ltb-false (header_size + length (g.payload ++ rest)) (message_size g)
            (omega (arith, length-append g.payload rest)),
      )
      (ap (got g.type g.id g.seq (message_size g))
        (drop-append (message_size g) (encode_message p g) rest (omega arith)))

-- What a parse accepts lies in the bytes, and the rest is what stands behind it.
pub parse-got :
    (p : Platform) (u : List ℕ) {t i s n : ℕ} {rest : List ℕ}
    → parse p u ≡ got t i s n rest
    → (n ≤ length u) × (rest ≡ drop n u)
unfolding parse
parse-got p [] e = absurd (ground arith)
parse-got p (x0 ∷ []) e = absurd (ground arith)
parse-got p (x0 ∷ x1 ∷ []) e = absurd (ground arith)
parse-got p (x0 ∷ x1 ∷ x2 ∷ []) e = absurd (ground arith)
parse-got p (x0 ∷ x1 ∷ x2 ∷ x3 ∷ []) e = absurd (ground arith)
parse-got p (x0 ∷ x1 ∷ x2 ∷ x3 ∷ x4 ∷ []) e = absurd (ground arith)
parse-got p (x0 ∷ x1 ∷ x2 ∷ x3 ∷ x4 ∷ x5 ∷ []) e = absurd (ground arith)
parse-got p (t ∷ i ∷ s ∷ a ∷ b ∷ c ∷ d ∷ tail) e = ground arith
