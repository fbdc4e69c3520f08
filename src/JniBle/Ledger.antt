-- ===== src/JniBle/Ledger.antt =====
-- What the Java virtual machine keeps for the calls of JNI/c/ARNETWORKAL_JNIBLENetwork.c: a book that
-- takes each event in turn, and refuses one that it has no ground for.
use lib_arnetwork_al.Prelude.{
  ◌>>=◌, ==_true, Bool, List, Option, [], arith, false, if◌then◌else◌, monitor, monitor-append,
  none, refl, some, true, ℕ, ◌++◌, ◌+◌, ◌-◌, ◌==◌, ◌>>=◌, ◌||◌, ◌∷◌, ◌≡◌,
}
use lib_arnetwork_al.JniBle.{
  JniEvent, allocated_object, attached_thread, called, deleted_global, deleted_local,
  detached_thread, freed_object_block, got_elements, jni_notified, new_global, new_local,
  released_elements,
}

-- Whether the thread was attached by the call, the references and arrays' elements that are held, and
-- the number of allocated objects.
pub record Ledger : Type 0 where
  pub attached : Bool
  pub globals : List ℕ
  pub elements : List ℕ
  pub locals : List ℕ
  pub objects : ℕ

abbrev pub ledger : Bool → List ℕ → List ℕ → List ℕ → ℕ → Ledger
ledger attached globals elements locals objects = record {
  attached = attached;
  globals = globals;
  elements = elements;
  locals = locals;
  objects = objects;
}

abbrev pub has : ℕ → List ℕ → Bool
has x [] = false
has x (y ∷ ys) = (x == y) || has x ys

-- Without the first occurrence; `none` where there is none.
abbrev pub remove : ℕ → List ℕ → Option (List ℕ)
remove x [] = none
remove x (y ∷ ys) =
    let rest = remove x ys in if x == y then some ys else (rest >>= λ zs. some (y ∷ zs))

-- One event: nothing is given back that is not held, and nothing is used that is not held.
abbrev pub enter : JniEvent → Ledger → Option Ledger
enter (attached_thread given) l = if l.attached then none else some (record l { attached = given })
enter detached_thread l = if l.attached then some (record l { attached = false }) else none
enter allocated_object l = some (record l { objects = 1 + l.objects })
enter freed_object_block l =
    if l.objects == 0 then none else some (record l { objects = l.objects - 1 })
enter (new_local r) l = some (record l { locals = r ∷ l.locals })
enter (deleted_local r) l = remove r l.locals >>= λ rs. some (record l { locals = rs })
enter (new_global of g) l =
    if has of l.locals then some (record l { globals = g ∷ l.globals }) else none
enter (deleted_global g) l = remove g l.globals >>= λ gs. some (record l { globals = gs })
enter (got_elements array a) l =
    if has array l.globals then some (record l { elements = a ∷ l.elements }) else none
enter (released_elements array a) l =
    if has array l.globals
    then (remove a l.elements >>= λ es. some (record l { elements = es }))
    else none
enter (called method r) l = if has r l.globals || has r l.locals then some l else none
enter (jni_notified callback manager custom_data) l = some l

abbrev pub replay : List JniEvent → Ledger → Option Ledger
replay = monitor enter

pub replay-append :
    (es es' : List JniEvent) (l l' : Ledger)
    → replay es l ≡ some l'
    → replay (es ++ es') l ≡ replay es' l'
replay-append = monitor-append enter

pub ==_refl : (n : ℕ) → (n == n) ≡ true
==_refl n = ==_true n n refl

pub remove-second : (x y : ℕ) (zs : List ℕ) → remove y (x ∷ y ∷ zs) ≡ some (x ∷ zs)
remove-second x y zs = ground arith

pub has-second : (x y : ℕ) (zs : List ℕ) → has y (x ∷ y ∷ zs) ≡ true
has-second x y zs = ground arith
