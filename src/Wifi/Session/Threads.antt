-- ===== src/Wifi/Session/Threads.antt =====
-- The calls of a sending and of a receiving thread on one manager of
-- Sources/Wifi/ARNETWORKAL_WifiNetwork.c, in any order, each call whole.
pub mod Alone
pub mod Calls
pub mod Quiet
pub mod Receiver
pub mod Sender
use lib_arnetwork_al.Prelude.{
  Bool, List, Option, [], false, if◌then◌else◌, none, refl, some, true, ℕ, ◌++◌, ◌>>=◌, ◌∷◌, ◌≡◌,
}
use lib_arnetwork_al.Frame.{Return}
use lib_arnetwork_al.Wifi.{
  DumpTag, Event, Manager, WifiObject, drained, dumped, notified, transmitted,
}
use lib_arnetwork_al.Wifi.Send.Refine.{transmissions}
use lib_arnetwork_al.Wifi.Session.Links.{Post}
use lib_arnetwork_al.Wifi.Session.{Call, call, pop, push, receive_next, send_all}

-- The calls of the sending thread, and of the receiving one.
abbrev pub sending : List Call → List Call
sending [] = []
sending (push mem reply f ∷ cs) = push mem reply f ∷ sending cs
sending (send_all reply ∷ cs) = send_all reply ∷ sending cs
sending (pop f ∷ cs) = sending cs
sending (receive_next env ∷ cs) = sending cs

abbrev pub receiving : List Call → List Call
receiving [] = []
receiving (push mem reply f ∷ cs) = receiving cs
receiving (send_all reply ∷ cs) = receiving cs
receiving (pop f ∷ cs) = pop f ∷ receiving cs
receiving (receive_next env ∷ cs) = receive_next env ∷ receiving cs

-- What is looked at of a call.
abbrev pub view :
    {A : Type 0} → (Manager → List Event → A) → Option (Manager × List Event) → Option A
view look out = out >>= λ (m', es). some (look m' es)

abbrev pub sent_part : Manager → List Event → Option WifiObject × List (List ℕ)
sent_part m es = (m.sender, transmissions es)

abbrev pub received_part : Manager → List Event → Option WifiObject
received_part m es = m.receiver

-- Two branches, and two continuations, that look the same.
pub if-same :
    {A B : Type 0} (look : A → B) (b : Bool) (x x' y y' : A)
    → look x ≡ look x'
    → look y ≡ look y'
    → look (if b then x else y) ≡ look (if b then x' else y')
if-same look true x x' y y' h k = h
if-same look false x x' y y' h k = k

pub bind-same :
    {A B C : Type 0} (look : Option B → C) (c : Option A) (f f' : A → Option B)
    → look none ≡ look none
    → ((a : A) → look (f a) ≡ look (f' a))
    → look (c >>= f) ≡ look (c >>= f')
bind-same look none f f' h k = h
bind-same look (some a) f f' h k = k a

pub dump_quiet :
    (d : Bool) (tag : DumpTag) (a n : ℕ)
    → transmissions (if d then dumped tag a n ∷ [] else []) ≡ []
dump_quiet true tag a n = refl
dump_quiet false tag a n = refl

-- The manager of a call, and the same call of a manager with another receiver.
module _ {A : Type 0} (look : Manager → List Event → A) where
  abbrev pub looked : Option (Return × Manager × List Event) → Option A
  looked out = view look (out >>= λ (r, m', es). some (m', es))

pub if-Holds :
    {A : Type 0} (P : A → Type 0) (b : Bool) (x y : A) → P x → P y → P (if b then x else y)
if-Holds P true x y h k = h
if-Holds P false x y h k = k

pub Post-if :
    {A : Type 0} (P : A → Type 0) (b : Bool) (x y : Option A)
    → Post P x
    → Post P y
    → Post P (if b then x else y)
Post-if P = if-Holds (Post P)

-- A call of the sending thread leaves the receiver.
abbrev pub KeepsReceiver : Option WifiObject → Return × Manager × List Event → Type 0
KeepsReceiver r (result, m', es) = m'.receiver ≡ r

-- A call of the receiving thread leaves the sender, and hands nothing to the socket.
abbrev pub KeepsSender : Option WifiObject → Manager × List Event → Type 0
KeepsSender s (m', es) = (m'.sender ≡ s) × (transmissions es ≡ [])

pub Post-map :
    {A B : Type 0} (Q : B → Type 0) (g : A → B) (x : Option A)
    → Post (λ a. Q (g a)) x
    → Post Q (x >>= λ a. some (g a))
Post-map Q g none h = tt
Post-map Q g (some a) h = h

pub Post-weaken :
    {A : Type 0} (P Q : A → Type 0) (x : Option A) → ((a : A) → P a → Q a) → Post P x → Post Q x
Post-weaken P Q none k h = tt
Post-weaken P Q (some a) k h = k a h

-- Nothing is handed to the socket.
abbrev pub IsQuiet : List Event → Type 0
IsQuiet es = transmissions es ≡ []

pub append-IsQuiet : (es tail : List Event) → IsQuiet es → IsQuiet tail → IsQuiet (es ++ tail)
append-IsQuiet [] tail h k = k
append-IsQuiet (transmitted socket bytes ∷ es) tail h k = absurd (cc)
append-IsQuiet (dumped tag a n ∷ es) tail h k = append-IsQuiet es tail h k
append-IsQuiet (drained fifo ∷ es) tail h k = append-IsQuiet es tail h k
append-IsQuiet (notified callback custom_data ∷ es) tail h k = append-IsQuiet es tail h k
