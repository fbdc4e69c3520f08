-- ===== src/Wifi/Lifecycle/Release.antt =====
-- ARNETWORKAL_WifiNetwork_Delete of Sources/Wifi/ARNETWORKAL_WifiNetwork.c, and what it gives back of
-- what the calls before it took.
use lib_arnetwork_al.Prelude.{
  refl, arith, Bool, List, Option, [], false, if◌then◌else◌, is_minus_one, none, not, some, true, ℕ,
  ℤ, ◌&&◌, ◌++◌, ◌==◌, ◌∷◌, ◌≡◌,
}
use lib_arnetwork_al.Errors.{Error, bad_parameter, ok}
use lib_arnetwork_al.Wifi.{Manager, WifiObject}
use lib_arnetwork_al.Wifi.Lifecycle.{Allocation, Mallocs, new}

-- What Delete gives back: a descriptor, a buffer by its address, and an object.
pub data Returned : Type 0 where
  closed : ℤ → Returned
  freed_buffer : ℕ → Returned
  freed_object : Returned

-- Whether a call comes to its end, or waits on a semaphore of which the count is 0.
pub data Deleted : Type 0 where
  waits : Deleted
  deleted : Error → Option Manager → List Returned → Deleted

-- The part of an object, up to its semaphores.
abbrev pub returned : WifiObject → List Returned
returned o =
    (if is_minus_one o.socket then [] else closed o.socket ∷ [])
    ++ (closed o.fifo_read
        ∷ closed o.fifo_write
        ∷ ((if o.buffer == 0 then [] else freed_buffer o.buffer ∷ []) ++ (freed_object ∷ [])))

-- The wait on `bw_threadRunning` ends at once.
abbrev pub is_free : Option WifiObject → Bool
is_free none = true
is_free (some o) = not (o.bw_thread_running == 0)

abbrev pub returned_of : Option WifiObject → List Returned
returned_of none = []
returned_of (some o) = returned o

-- ARNETWORKAL_WifiNetwork_Delete, where no other thread posts meanwhile
unfoldable pub delete : Option Manager → Deleted
delete none = deleted bad_parameter none []
delete (some m) =
    if is_free m.sender && is_free m.receiver
    then (deleted ok (some (record m { sender = none; receiver = none }))
        (returned_of m.sender ++ returned_of m.receiver))
    else waits

-- `malloc` gives no block at address 0.
abbrev pub IsAllocated : Option Allocation → Type 0
IsAllocated none = Unit {0}
IsAllocated (some b) = (b.address == 0) ≡ false

-- The blocks that New takes for one object, if it comes so far.
abbrev pub taken : Option WifiObject → Option Allocation → List Returned
taken none buffer = []
taken (some raw) none = freed_object ∷ []
taken (some raw) (some b) = freed_buffer b.address ∷ freed_object ∷ []

-- New comes to the receiver only where the sender has both its blocks.
abbrev pub taken_receiver : Mallocs → List Returned
taken_receiver ms = elim ms.sender_object [
  | none ↦ []
  | some raw ↦ elim ms.sender_buffer [
    | none ↦ []
    | some b ↦ taken ms.receiver_object ms.receiver_buffer
  ]
]

-- The blocks among what is given back.
abbrev pub blocks : List Returned → List Returned
blocks [] = []
blocks (closed d ∷ rs) = blocks rs
blocks (freed_buffer a ∷ rs) = freed_buffer a ∷ blocks rs
blocks (freed_object ∷ rs) = freed_object ∷ blocks rs

-- Delete ends, and gives back these blocks.
abbrev pub GivesBack : Deleted → Error → Manager → List Returned → Type 0
GivesBack out code m spec =
    (rs : List Returned) × (out ≡ deleted code (some m) rs) × (blocks rs ≡ spec)

-- What `malloc` gives, one by one.
abbrev pub given :
    Option WifiObject → Option Allocation → Option WifiObject → Option Allocation → Mallocs
given so sb ro rb = record {
  sender_object = so;
  sender_buffer = sb;
  receiver_object = ro;
  receiver_buffer = rb;
}

module _ (m : Manager) (at_r : m.receiver ≡ none) where
  delete-new_parts :
      (so : Option WifiObject) (sb : Option Allocation) (ro : Option WifiObject)
      (rb : Option Allocation)
      → IsAllocated sb
      → IsAllocated rb
      → GivesBack
          (delete (new (given so sb ro rb) (some m)).1)
          ok
          (record m { sender = none; receiver = none })
          (taken so sb ++ taken_receiver (given so sb ro rb))
  unfolding new delete
  delete-new_parts none sb ro rb hs hr = ([], rw at_r refl, refl)
  delete-new_parts (some s) none ro rb hs hr = rw at_r (_, refl, refl)
  delete-new_parts (some s) (some b) none rb hs hr = (_, refl, ground (arith, hs))
  delete-new_parts (some s) (some b) (some r) none hs hr = (_, refl, ground (arith, hs))
  delete-new_parts (some s) (some b) (some r) (some c) hs hr = (_, refl, ground (arith, hs, hr))

-- On a manager without a receiver, whichever calls of `malloc` fail, Delete behind New does not wait,
-- returns OK, leaves the manager without objects, and frees just the blocks that New took, each once.
pub delete-new :
    (ms : Mallocs) (m : Manager)
    → m.receiver ≡ none
    → IsAllocated ms.sender_buffer
    → IsAllocated ms.receiver_buffer
    → GivesBack
        (delete (new ms (some m)).1)
        ok
        (record m { sender = none; receiver = none })
        (taken ms.sender_object ms.sender_buffer ++ taken_receiver ms)
delete-new ms m at_r hs hr =
    delete-new_parts m at_r ms.sender_object ms.sender_buffer ms.receiver_object ms.receiver_buffer
      hs hr
