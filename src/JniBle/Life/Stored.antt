-- ===== src/JniBle/Life/Stored.antt =====
-- What the virtual machine's book makes of a DataPop, and of the array that PopFrame stores.
use lib_arnetwork_al.Prelude.{
  Bool, List, Option, [], false, none, refl, some, true, ℕ, ◌++◌, ◌||◌, ◌∷◌, ◌≡◌,
}
use lib_arnetwork_al.Wifi.Lifecycle.{Allocation}
use lib_arnetwork_al.JniBle.{JniBleObject, new_global}
use lib_arnetwork_al.JniBle.Object.{elements_event, object_delete_current_frame}
use lib_arnetwork_al.JniBle.Frames.{DataPop, data_pop_events}
use lib_arnetwork_al.JniBle.Ledger.{==_refl, has, ledger, remove-second, replay}
use lib_arnetwork_al.JniBle.Life.Balance.{IsLive, addresses, references}

abbrev pub with_parts : JniBleObject → Option ℕ → Option ℕ → Option Allocation → JniBleObject
with_parts o network array elements = record o {
  java_network = network;
  current_frame_byte_array = array;
  current_frame = elements;
}

or_true : (x : Bool) → (x || true) ≡ true
or_true true = refl
or_true false = refl

-- The methods of a DataPop leave the reference to its array, if it has one.
pub replay-data_pop :
    (d : DataPop) (array : Option ℕ) (b : Bool) (gs es : List ℕ)
    → d.frame_data ≡ array
    → replay (data_pop_events d) (ledger b gs es [] 1) ≡ some (ledger b gs es (references array) 1)
replay-data_pop d none b gs es e =
    rw
      (
        e,
        ==_refl d.reference,
        or_true (has d.reference gs),
        ==_refl d.reference,
        or_true (has d.reference gs),
        ==_refl d.reference,
        or_true (has d.reference gs),
        ==_refl d.reference,
      )
      refl
replay-data_pop d (some x) b gs es e =
    rw
      (
        e,
        ==_refl d.reference,
        or_true (has d.reference gs),
        ==_refl d.reference,
        or_true (has d.reference gs),
        ==_refl d.reference,
        or_true (has d.reference gs),
        remove-second x d.reference [],
      )
      refl

-- The new array in place of the one that was held.
pub replay-stored :
    (b : Bool) (array g n : ℕ) (o : JniBleObject) (held_array : Option ℕ)
    (held_elements elements : Option Allocation)
    → IsLive (some n) held_array held_elements
    → replay
        ((object_delete_current_frame (with_parts o (some n) held_array held_elements)).1
          ++ (new_global array g ∷ elements_event g elements))
        (ledger b (references held_array ++ (n ∷ [])) (addresses held_elements) (array ∷ []) 1)
      ≡ some (ledger b (g ∷ n ∷ []) (addresses elements) (array ∷ []) 1)
replay-stored b array g n o none none none live = rw (==_refl array) refl
replay-stored b array g n o none none (some x) live = rw (==_refl array, ==_refl g) refl
replay-stored b array g n o (some h) none none live = rw (==_refl h, ==_refl array) refl
replay-stored b array g n o (some h) none (some x) live =
    rw (==_refl h, ==_refl array, ==_refl g) refl
replay-stored b array g n o (some h) (some y) none live =
    rw (==_refl h, ==_refl y.address, ==_refl h, ==_refl array) refl
replay-stored b array g n o (some h) (some y) (some x) live =
    rw (==_refl h, ==_refl y.address, ==_refl h, ==_refl array, ==_refl g) refl
replay-stored b array g n o none (some y) elements live = absurd live
