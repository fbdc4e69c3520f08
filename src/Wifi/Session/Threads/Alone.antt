-- ===== src/Wifi/Session/Threads/Alone.antt =====
-- A thread of Sources/Wifi/ARNETWORKAL_WifiNetwork.c does what it does alone, whatever the other does
-- between its calls.
use mathlib.Core.Path.{ap₂}
use lib_arnetwork_al.Prelude.{
  List, Option, [], ap, none, refl, some, sym, ◌++◌, ◌>>=◌, ◌∙◌, ◌∷◌, ◌≡◌,
}
use lib_arnetwork_al.Platform.{IsPlatform, Platform}
use lib_arnetwork_al.Wifi.{Event, Manager, drained, dumped, notified, transmitted}
use lib_arnetwork_al.Wifi.Send.Refine.{transmissions}
use lib_arnetwork_al.Wifi.Session.{AllCalls, Call, call, pop, push, receive_next, run, send_all}
use lib_arnetwork_al.Wifi.Session.Links.{Post, Post-elim}
use lib_arnetwork_al.Wifi.Session.Run.{IsReady, run-Runs, some-injective}
use lib_arnetwork_al.Wifi.Session.Threads.{
  KeepsSender, received_part, receiving, sending, sent_part, view,
}
use lib_arnetwork_al.Wifi.Session.Threads.Calls.{
  pop-alone, push-alone, push_call-keeps, receive-alone, send-alone, send_call-keeps,
}
use lib_arnetwork_al.Wifi.Session.Threads.Quiet.{pop-KeepsSender, receive-KeepsSender}

transmissions-append :
    (es es' : List Event) → transmissions (es ++ es') ≡ transmissions es ++ transmissions es'
transmissions-append [] es' = refl
transmissions-append (transmitted socket bytes ∷ es) es' =
    ap (λ t. bytes ∷ t) (transmissions-append es es')
transmissions-append (dumped tag a n ∷ es) es' = transmissions-append es es'
transmissions-append (drained fifo ∷ es) es' = transmissions-append es es'
transmissions-append (notified callback custom_data ∷ es) es' = transmissions-append es es'

-- A call that runs, seen from what is looked at.
view-some :
    {A : Type 0} (look : Manager → List Event → A) (out : Option (Manager × List Event)) (a : A)
    → view look out ≡ some a
    → (m' : Manager) × (es : List Event) × (out ≡ some (m', es)) × (look m' es ≡ a)
view-some look none a h = absurd (cc)
view-some look (some (m', es)) a h = (m', es, refl, some-injective h)

-- A bind that returns.
bind-some :
    {A B : Type 0} (x : Option A) (f : A → Option B) (b : B)
    → (x >>= f) ≡ some b
    → (a : A) × (x ≡ some a) × (f a ≡ some b)
bind-some none f b h = absurd (cc)
bind-some (some a) f b h = (a, refl, h)

-- A call of a sequence that runs, and the rest.
run-step :
    (p : Platform) (c : Call) (cs : List Call) (m m' : Manager) (es : List Event)
    → run p (c ∷ cs) m ≡ some (m', es)
    → (m1 : Manager) × (es1 : List Event) × (es2 : List Event) × (call p m c ≡ some (m1, es1))
      × (run p cs m1 ≡ some (m', es2))
      × (es ≡ es1 ++ es2)
unfolding run
run-step p c cs m m' es h =
    let ((m1, es1), first, then1) = bind-some (call p m c) _ (m', es) h in
    let ((m2, es2), rest, end) = bind-some (run p cs m1) _ (m', es) then1 in
    let same = some-injective end in
    (m1, es1, es2, first, rest ∙ ap (λ x. some (x.0, es2)) same, sym (ap (λ x. x.1) same))

run-view :
    {A : Type 0} (look : Manager → List Event → A) (p : Platform) (c : Call) (cs : List Call)
    (m m1 m' : Manager) (es es' : List Event)
    → call p m c ≡ some (m1, es)
    → run p cs m1 ≡ some (m', es')
    → view look (run p (c ∷ cs) m) ≡ some (look m' (es ++ es'))
unfolding run
run-view look p c cs m m1 m' es es' h k = rw (h, k) refl

module _ (p : Platform) (m' : Manager) where
  -- Calls `cs'` alone do for the sender, or for the receiver, what `cs` do that end in the manager.
  abbrev SentAlone : List Call → List Call → Type 0
  SentAlone cs cs' =
      (m m2 : Manager) (es : List Event)
      → run p cs m ≡ some (m', es)
      → m2.sender ≡ m.sender
      → view sent_part (run p cs' m2) ≡ some (m'.sender, transmissions es)

  abbrev ReceivedAlone : List Call → List Call → Type 0
  ReceivedAlone cs cs' =
      (m m2 : Manager) (es : List Event)
      → run p cs m ≡ some (m', es)
      → m2.receiver ≡ m.receiver
      → view received_part (run p cs' m2) ≡ some m'.receiver

  -- A call of the sender, and one of the receiver between.
  sender-step :
      (c : Call) (cs cs' : List Call)
      → ((m m2 : Manager)
          → m2.sender ≡ m.sender
          → view sent_part (call p m c) ≡ view sent_part (call p m2 c))
      → SentAlone cs cs'
      → SentAlone (c ∷ cs) (c ∷ cs')
  sender-step c cs cs' same rest m m2 es ran e =
      let (m1, es1, es2, first, then1, all) = run-step p c cs m m' es ran in
      let (m3, es3, ran3, at3) =
        view-some sent_part (call p m2 c) (sent_part m1 es1)
          (sym (same m m2 e) ∙ ap (λ out. view sent_part out) first) in
      let (m4, es4, ran4, at4) =
        view-some sent_part (run p cs' m3) (m'.sender, transmissions es2)
          (rest m1 m3 es2 then1 (ap (λ x. x.0) at3)) in
      run-view sent_part p c cs' m2 m3 m4 es3 es4 ran3 ran4
      ∙ ap₂ (λ x t. some (x, t)) (ap (λ x. x.0) at4)
          (transmissions-append es3 es4
            ∙ (ap₂ (λ a b. a ++ b) (ap (λ x. x.1) at3) (ap (λ x. x.1) at4)
                ∙ sym (ap transmissions all ∙ transmissions-append es1 es2)))

  sender-skip :
      (c : Call) (cs cs' : List Call)
      → ((m : Manager) → Post (KeepsSender m.sender) (call p m c))
      → SentAlone cs cs'
      → SentAlone (c ∷ cs) cs'
  sender-skip c cs cs' keeps rest m m2 es ran e =
      let (m1, es1, es2, first, then1, all) = run-step p c cs m m' es ran in
      let (same, quiet) = Post-elim (KeepsSender m.sender) (call p m c) (m1, es1) first (keeps m) in
      rest m1 m2 es2 then1 (e ∙ sym same)
      ∙ ap (λ t. some (m'.sender, t))
          (sym (
            ap transmissions all
            ∙ (transmissions-append es1 es2 ∙ ap (λ t. t ++ transmissions es2) quiet)))

  receiver-step :
      (c : Call) (cs cs' : List Call)
      → ((m m2 : Manager)
          → m2.receiver ≡ m.receiver
          → view received_part (call p m c) ≡ view received_part (call p m2 c))
      → ReceivedAlone cs cs'
      → ReceivedAlone (c ∷ cs) (c ∷ cs')
  receiver-step c cs cs' same rest m m2 es ran e =
      let (m1, es1, es2, first, then1, all) = run-step p c cs m m' es ran in
      let (m3, es3, ran3, at3) =
        view-some received_part (call p m2 c) m1.receiver
          (sym (same m m2 e) ∙ ap (λ out. view received_part out) first) in
      let (m4, es4, ran4, at4) =
        view-some received_part (run p cs' m3) m'.receiver (rest m1 m3 es2 then1 at3) in
      run-view received_part p c cs' m2 m3 m4 es3 es4 ran3 ran4 ∙ ap some at4

  receiver-skip :
      (c : Call) (cs cs' : List Call)
      → ((m : Manager) → Post (λ x. x.0.receiver ≡ m.receiver) (call p m c))
      → ReceivedAlone cs cs'
      → ReceivedAlone (c ∷ cs) cs'
  receiver-skip c cs cs' keeps rest m m2 es ran e =
      let (m1, es1, es2, first, then1, all) = run-step p c cs m m' es ran in
      let same =
        Post-elim (λ x. x.0.receiver ≡ m.receiver) (call p m c) (m1, es1) first (keeps m) in
      rest m1 m2 es2 then1 (e ∙ sym same)

  sent_alone : (cs : List Call) → SentAlone cs (sending cs)
  unfolding run
  sent_alone [] = λ m m2 es ran e.
      ap₂ (λ x t. some (x, t)) (e ∙ ap (λ x. x.0.sender) (some-injective ran))
        (ap (λ x. transmissions x.1) (some-injective ran))
  sent_alone (push mem reply f ∷ cs) =
      sender-step (push mem reply f) cs (sending cs) (push-alone p mem reply f) (sent_alone cs)
  sent_alone (send_all reply ∷ cs) =
      sender-step (send_all reply) cs (sending cs) (send-alone p reply) (sent_alone cs)
  sent_alone (pop f ∷ cs) =
      sender-skip (pop f) cs (sending cs) (pop-KeepsSender p f) (sent_alone cs)
  sent_alone (receive_next env ∷ cs) =
      sender-skip (receive_next env) cs (sending cs) (receive-KeepsSender p env) (sent_alone cs)

  received_alone : (cs : List Call) → ReceivedAlone cs (receiving cs)
  unfolding run
  received_alone [] = λ m m2 es ran e. ap some (e ∙ ap (λ x. x.0.receiver) (some-injective ran))
  received_alone (push mem reply f ∷ cs) =
      receiver-skip (push mem reply f) cs (receiving cs) (push_call-keeps p mem reply f)
        (received_alone cs)
  received_alone (send_all reply ∷ cs) =
      receiver-skip (send_all reply) cs (receiving cs) (send_call-keeps p reply) (received_alone cs)
  received_alone (pop f ∷ cs) =
      receiver-step (pop f) cs (receiving cs) (pop-alone p f) (received_alone cs)
  received_alone (receive_next env ∷ cs) =
      receiver-step (receive_next env) cs (receiving cs) (receive-alone p env) (received_alone cs)

-- A sending thread calls PushFrame and Send and a receiving thread calls PopFrame and Receive, each
-- call whole, on a manager with a valid sender, a valid receiver with open descriptors and the
-- application's callback on both; every frame to push has the size of its head and of its readable
-- data and a size below 2^32 - 65536, and the system's answers to Receive respect the room that they
-- are given. In whatever order the calls of the two are made, none faults, and behind them the
-- sender and what was handed to the socket are those of the sending thread's calls alone, and the
-- receiver is that of the receiving thread's calls alone.
pub run-threads :
    {p : Platform} (cs : List Call) (m : Manager)
    → IsPlatform p
    → IsReady p m
    → AllCalls p cs
    → (m' : Manager) × (es : List Event) × (run p cs m ≡ some (m', es))
      × (view sent_part (run p (sending cs) m) ≡ some (m'.sender, transmissions es))
      × (view received_part (run p (receiving cs) m) ≡ some m'.receiver)
run-threads cs m ip h ok =
    let (m', es, ran, _, _) = run-Runs cs m ip h ok in
    (m', es, ran, sent_alone _ m' cs m m es ran refl, received_alone _ m' cs m m es ran refl)
