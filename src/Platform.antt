-- ===== src/Platform.antt =====
-- What the code takes from outside of the repository: the system's IP_MAXPACKET, libARSAL's byte
-- order conversions and its clock difference, the process's memory, the errno values that the code
-- compares with, and what the calls of the system return. The machine is taken as LP64 and little-endian.
use lib_arnetwork_al.Prelude.{
  ℕ, ℤ, zero, suc, ◌+◌, ◌-◌, ◌*◌, ◌/◌, ◌%◌, ◌≤◌, ◌<◌, ◌≡◌, refl, ap, ◌∙◌, Option, none, some, List,
  [], ◌∷◌, ◌++◌, append_assoc, arith, length, get_elem?, take, drop, length-append,
  length-take_of_le, length-drop, take-append, leb, leb-true, if◌then◌else◌, ◌>>=◌, u32_mod,
}

-- `struct timespec`
pub record Timespec : Type 0 where
  pub tv_sec : ℕ
  pub tv_nsec : ℕ

-- `ms_time_diff` is ARSAL_Time_ComputeTimespecMsTimeDiff, from the first date to the second.
pub record Platform : Type 0 where
  pub ip_maxpacket : ℕ
  pub htodl : ℕ → ℕ
  pub dtohl : ℕ → ℕ
  pub ms_time_diff : Timespec → Timespec → ℤ

-- An IP packet has room for the headers and for the head of one frame, and its length is a number
-- of 16 bits; the two conversions are inverse to one another, on values of 32 bits.
pub record IsPlatform (p : Platform) : Type 0 where
  pub packet_min : 15 ≤ p.ip_maxpacket
  pub packet_max : p.ip_maxpacket < 65536
  pub htodl-lt : (n : ℕ) → n < u32_mod → p.htodl n < u32_mod
  pub dtohl-lt : (n : ℕ) → n < u32_mod → p.dtohl n < u32_mod
  pub dtohl-htodl : (n : ℕ) → n < u32_mod → p.dtohl (p.htodl n) ≡ n

-- The values of `errno` that the code tells apart.
pub data Errno : Type 0 where
  eagain eacces enxio etimedout other : Errno

-- Memory by address; `none` where nothing is mapped.
abbrev pub Memory : Type 0
Memory = ℕ → Option ℕ

-- The `n` bytes from address `a` on: what `memcpy` reads.
unfoldable pub read_bytes : Memory → ℕ → ℕ → Option (List ℕ)
read_bytes mem a zero = some []
read_bytes mem a (suc n) = mem a >>= λ b. read_bytes mem (a + 1) n >>= λ bs. some (b ∷ bs)

-- A `uint32_t` as `memcpy` stores it, and back.
abbrev pub u32_bytes : ℕ → List ℕ
u32_bytes n = (n % 256) ∷ (n / 256 % 256) ∷ (n / 65536 % 256) ∷ (n / 16777216 % 256) ∷ []

abbrev pub bytes_u32 : ℕ → ℕ → ℕ → ℕ → ℕ
bytes_u32 a b c d = a + 256 * b + 65536 * c + 16777216 * d

unfoldable pub read_u32 : Memory → ℕ → Option ℕ
read_u32 mem p = do
  a ← mem p
  b ← mem (p + 1)
  c ← mem (p + 2)
  d ← mem (p + 3)
  some (bytes_u32 a b c d)

pub bytes_u32-u32_bytes :
    (n : ℕ)
    → n < u32_mod
    → bytes_u32 (n % 256) (n / 256 % 256) (n / 65536 % 256) (n / 16777216 % 256) ≡ n
bytes_u32-u32_bytes n h = omega arith

-- An allocation of `bytes` at `base`, as memory.
abbrev pub block : ℕ → List ℕ → Memory
block base bytes a = if leb base a then get_elem? bytes (a - base) else none

-- What lies at an index that is in range, and behind it.
drop-cons :
    (bytes : List ℕ) (off : ℕ)
    → off < length bytes
    → (b : ℕ) × (get_elem? bytes off ≡ some b) × (drop off bytes ≡ b ∷ drop (off + 1) bytes)
drop-cons [] off h = absurd (omega arith)
drop-cons (x ∷ xs) zero h = (x, refl, refl)
drop-cons (x ∷ xs) (suc off) h =
    let (b, got, split) = drop-cons xs off (omega arith) in
    (b, got, split ∙ ap (λ k. b ∷ drop k (x ∷ xs)) {x = suc (off + 1)} (omega arith))

-- A read inside an allocation gives the bytes that lie there.
pub read_bytes-block :
    (base : ℕ) (bytes : List ℕ) (a off n : ℕ)
    → a ≡ base + off
    → off + n ≤ length bytes
    → read_bytes (block base bytes) a n ≡ some (take n (drop off bytes))
unfolding read_bytes
read_bytes-block base bytes a off zero e h = refl
read_bytes-block base bytes a off (suc n) e h =
    let (b, got, split) = drop-cons bytes off (omega arith) in
    rw (
      leb-true base a (omega arith),
      (let i : a - base ≡ off = omega arith in i),
      got,
      read_bytes-block base bytes (a + 1) (off + 1) n (omega arith) (omega arith),
      split,
    )

-- `memcpy` into an allocation, at an offset.
unfoldable pub write_bytes : List ℕ → ℕ → List ℕ → Option (List ℕ)
write_bytes bytes off src =
    if leb (off + length src) (length bytes)
    then some (take off bytes ++ (src ++ drop (off + length src) bytes))
    else none

-- A write that fits keeps what stands before it, and the allocation's length.
pub write_bytes-append :
    (bytes : List ℕ) (off : ℕ) (src : List ℕ)
    → off + length src ≤ length bytes
    → (bytes' : List ℕ) × (write_bytes bytes off src ≡ some bytes')
      × (length bytes' ≡ length bytes)
      × (take (off + length src) bytes' ≡ take off bytes ++ src)
unfolding write_bytes
write_bytes-append bytes off src h = (
  take off bytes ++ (src ++ rest),
  rw (leb-true (off + length src) (length bytes) h),
  omega (
    arith,
    length-append (take off bytes) (src ++ rest),
    length-append src rest,
    length-take_of_le off bytes,
    length-drop (off + length src) bytes,
  ),
  rw (← append_assoc (take off bytes) src rest) (
      take-append (off + length src) (take off bytes ++ src) rest
        (omega (arith, length-append (take off bytes) src, length-take_of_le off bytes))),
)
  where
    rest : List ℕ
    rest = drop (off + length src) bytes
