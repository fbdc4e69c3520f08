-- ===== src/JniBle/Life/Balance.antt =====
-- What the virtual machine holds for an object, and what the attachment of a call does to its book.
use lib_arnetwork_al.Prelude.{
  Bool, List, Option, [], false, none, refl, some, true, ℕ, ◌++◌, ◌∷◌, ◌≡◌,
}
use lib_arnetwork_al.Wifi.Lifecycle.{Allocation}
use lib_arnetwork_al.JniBle.{
  EnvResult, JavaMethod, JniBleObject, JniEvent, Thread, called, detached_thread, jni_edetached,
  jni_eversion, jni_ok, within,
}
use lib_arnetwork_al.JniBle.Ledger.{==_refl, Ledger, has-second, ledger, replay, replay-append}

abbrev pub references : Option ℕ → List ℕ
references none = []
references (some r) = r ∷ []

abbrev pub addresses : Option Allocation → List ℕ
addresses none = []
addresses (some b) = b.address ∷ []

-- What is held for an object between two calls.
abbrev pub held : Bool → JniBleObject → Ledger
held attached o =
    ledger attached (references o.current_frame_byte_array ++ references o.java_network)
      (addresses o.current_frame) [] 1

-- A Java object, and no elements without their array.
abbrev pub IsLive : Option ℕ → Option ℕ → Option Allocation → Type 0
IsLive (some n) (some array) elements = Unit {0}
IsLive (some n) none none = Unit {0}
IsLive (some n) none (some b) = ⊥
IsLive none array elements = ⊥

abbrev pub IsLiveObject : JniBleObject → Type 0
IsLiveObject o = IsLive o.java_network o.current_frame_byte_array o.current_frame

-- A call ends attached as it began, whether its thread was attached, could be, or not.
module _ (es : List JniEvent) (gs gs' els els' : List ℕ) (n n' : ℕ)
    (h : (b : Bool) → replay es (ledger b gs els [] n) ≡ some (ledger b gs' els' [] n')) where
  replay-within_parts :
      (vm : Bool) (ge : EnvResult) (at : Bool)
      → replay
          (within (record { virtual_machine = vm; get_env = ge; attaches = at }) es)
          (ledger false gs els [] n)
        ≡ some (ledger false gs' els' [] n')
  replay-within_parts false ge at = replay-append es [] _ _ (h false)
  replay-within_parts true jni_ok at = replay-append es [] _ _ (h false)
  replay-within_parts true jni_eversion at = replay-append es [] _ _ (h false)
  replay-within_parts true jni_edetached true = replay-append es (detached_thread ∷ []) _ _ (h true)
  replay-within_parts true jni_edetached false = replay-append es [] _ _ (h false)

  pub replay-within :
      (t : Thread)
      → replay (within t es) (ledger false gs els [] n) ≡ some (ledger false gs' els' [] n')
  replay-within t = replay-within_parts t.virtual_machine t.get_env t.attaches

-- A method of the Java object.
pub replay-called :
    (method : JavaMethod) (o : JniBleObject) (n : ℕ) (array : Option ℕ) (b : Bool)
    → o.java_network ≡ some n
    → o.current_frame_byte_array ≡ array
    → replay (called method n ∷ []) (held b o) ≡ some (held b o)
replay-called method o n none b e e' = rw (e, e', ==_refl n) refl
replay-called method o n (some a) b e e' = rw (e, e', has-second a n []) refl
