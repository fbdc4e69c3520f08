-- ===== src/Frame.antt =====
-- The frame of Includes/libARNetworkAL/ARNETWORKAL_Frame.h, the transfer functions' return codes
-- and the bytes that a frame is sent as.
pub mod Codec
use lib_arnetwork_al.Prelude.{
  Bool, false, true, ℕ, ◌+◌, List, [], ◌∷◌, ◌++◌, length, drop, ltb, if◌then◌else◌,
}
use lib_arnetwork_al.Platform.{Platform, u32_bytes, bytes_u32}

-- eARNETWORKAL_MANAGER_RETURN
pub data Return : Type 0 where
  default buffer_full buffer_empty bad_frame no_data_available bad_parameters network_error : Return

abbrev pub is_default : Return → Bool
is_default r = elim r [ default ↦ true | _ ↦ false ]

-- ARNETWORKAL_Frame_t; `data_ptr` is an address, 0 for NULL.
pub record Frame : Type 0 where
  pub type : ℕ
  pub id : ℕ
  pub seq : ℕ
  pub size : ℕ
  pub data_ptr : ℕ

-- ARNETWORKAL_FRAME_TYPE_UNINITIALIZED
abbrev pub uninitialized : ℕ
uninitialized = 0

-- offsetof (ARNETWORKAL_Frame_t, dataPtr), of the packed structure
abbrev pub header_size : ℕ
header_size = 7

-- `reset frame`, at the end of the failing calls
abbrev pub reset_frame : Frame → Frame
reset_frame f = record f { type = uninitialized; id = 0; seq = 0; size = 0; data_ptr = 0 }

-- A frame on the network: type, identifier, sequence number, size, data.
abbrev pub encode : Platform → (type id seq size : ℕ) → List ℕ → List ℕ
encode p type id seq size payload = type ∷ id ∷ seq ∷ (u32_bytes (p.htodl size) ++ payload)

-- What the first bytes of a datagram hold, whatever they are. `got` names the head's fields and the
-- bytes that the next call starts at.
pub data Parsed : Type 0 where
  empty bad : Parsed
  got : (type id seq size : ℕ) → List ℕ → Parsed

unfoldable pub parse : Platform → List ℕ → Parsed
parse p [] = empty
parse p (t ∷ i ∷ s ∷ a ∷ b ∷ c ∷ d ∷ tail) =
    let size = p.dtohl (bytes_u32 a b c d) in
    if ltb (header_size + length tail) size
    then bad
    else got t i s size (drop size (t ∷ i ∷ s ∷ a ∷ b ∷ c ∷ d ∷ tail))
parse p (x ∷ rest) = bad
