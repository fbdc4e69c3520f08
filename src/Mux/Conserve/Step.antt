-- ===== src/Mux/Conserve/Step.antt =====
-- One call of Receive or PopFrame of Sources/Mux/ARNETWORKAL_MuxNetwork.c, and the received buffers.
use lib_arnetwork_al.Prelude.{
  List, Option, [], ap, append-nil, arith, if◌then◌else◌, length, none, refl, some, sym, ℕ, ℤ, ◌++◌,
  ◌+◌, ◌∙◌, ◌∷◌, ◌≡◌, ◌≤◌,
}
use lib_arnetwork_al.Platform.{Platform}
use lib_arnetwork_al.Frame.{Frame, Return, default, network_error}
use lib_arnetwork_al.Mux.{
  MuxEvent, MuxObject, QueueReply, RxBuffer, disconnect, encoded, epipe, etimedout_reply,
  got_buffer, mux_notified, mux_receive, queue_failed, unref, unref_received, unref_sent,
}
use lib_arnetwork_al.Mux.Buffers.{
  MuxCall, arrivals, holds, mux_call, mux_pop_frame-empty, mux_pop_frame-popped, pop_call,
  receive_call, releases, releases-append,
}

-- How often the application was told of a disconnection, and how often it can still be.
abbrev pub told : List MuxEvent → ℕ
told [] = 0
told (mux_notified c d ∷ es) = 1 + told es
told (unref_received b ∷ es) = told es
told (encoded c bytes ∷ es) = told es
told (unref_sent ∷ es) = told es

abbrev pub untold : MuxObject → ℕ
untold o = if o.disconnected then 0 else 1

pub told-append : (es es' : List MuxEvent) → told (es ++ es') ≡ told es + told es'
told-append [] es' = omega arith
told-append (unref_received b ∷ es) es' = told-append es es'
told-append (encoded c bytes ∷ es) es' = told-append es es'
told-append (unref_sent ∷ es) es' = told-append es es'
told-append (mux_notified c d ∷ es) es' = omega (arith, told-append es es')

told-unref : (o : MuxObject) → told (unref o.rxbuf_recv ++ unref o.rxbuf_pop) ≡ 0
told-unref o = ground arith

-- What one call does to the buffers: `new` are those that it gets from the queue.
pub record Step (p : Platform) (c : MuxCall) (o : MuxObject) : Type 0 where
  pub after : MuxObject
  pub events : List MuxEvent
  pub new : List RxBuffer
  pub returns : mux_call p c o ≡ some (after, events)
  pub at_most_one : length (holds after) ≤ 1
  pub conserves : releases events ++ holds after ≡ holds o ++ new
  pub arrives : (cs : List MuxCall) → arrivals o.rxqueue (c ∷ cs) ≡ new ++ arrivals after.rxqueue cs
  pub callback : after.on_disconnect ≡ o.on_disconnect
  pub context : after.ctx ≡ o.ctx
  pub tells : (number : ℕ) → o.on_disconnect ≡ some number → told events + untold after ≡ untold o

releases-unref : (o : MuxObject) → releases (unref o.rxbuf_recv ++ unref o.rxbuf_pop) ≡ holds o
releases-unref o = ground arith

disconnect-releases : (o : MuxObject) → releases (disconnect o).1 ≡ []
disconnect-releases o = ground arith

-- A reception, which releases what was held.
module _ (p : Platform) (reply : QueueReply) (o : MuxObject) where
  receive-Step_of :
      (code : Return) (after : MuxObject) (telling : List MuxEvent) (new : List RxBuffer)
      → mux_receive reply o ≡ (code, after, (unref o.rxbuf_recv ++ unref o.rxbuf_pop) ++ telling)
      → releases telling ≡ []
      → holds after ≡ new
      → length new ≤ 1
      → ((cs : List MuxCall)
          → arrivals o.rxqueue (receive_call reply ∷ cs) ≡ new ++ arrivals after.rxqueue cs)
      → after.on_disconnect ≡ o.on_disconnect
      → after.ctx ≡ o.ctx
      → ((number : ℕ) → o.on_disconnect ≡ some number → told telling + untold after ≡ untold o)
      → Step p (receive_call reply) o
  unfolding mux_call
  receive-Step_of code after telling new ran quiet gives one arrives keeps same tells = record {
    after = after;
    events = (unref o.rxbuf_recv ++ unref o.rxbuf_pop) ++ telling;
    new = new;
    returns = rw ran refl;
    at_most_one = rw gives one;
    conserves =
        ap (λ r. r ++ holds after)
          (releases-append (unref o.rxbuf_recv ++ unref o.rxbuf_pop) telling
            ∙ (ap (λ r. releases (unref o.rxbuf_recv ++ unref o.rxbuf_pop) ++ r) quiet
                ∙ (append-nil (releases (unref o.rxbuf_recv ++ unref o.rxbuf_pop))
                    ∙ releases-unref o)))
        ∙ ap (λ r. holds o ++ r) gives;
    arrives = arrives;
    callback = keeps;
    context = same;
    tells = λ number h. omega (
      arith,
      told-append (unref o.rxbuf_recv ++ unref o.rxbuf_pop) telling,
      told-unref o,
      tells number h,
    );
  }

-- What the object is where it holds nothing.
abbrev without_buffers : MuxObject → MuxObject
without_buffers o = record o { rxbuf_recv = none; rxbuf_pop = none }

disconnect-keeps :
    (o : MuxObject) → (holds (disconnect o).0 ≡ holds o) × ((disconnect o).0.rxqueue ≡ o.rxqueue)
disconnect-keeps o = ground arith

disconnect-callback : (o : MuxObject) → (disconnect o).0.on_disconnect ≡ o.on_disconnect
disconnect-callback o = ground arith

disconnect-context : (o : MuxObject) → (disconnect o).0.ctx ≡ o.ctx
disconnect-context o = ground arith

disconnect-tells :
    (o : MuxObject) (number : ℕ)
    → o.on_disconnect ≡ some number
    → told (disconnect o).1 + untold (disconnect o).0 ≡ untold o
disconnect-tells o number h = ground (arith, h)

nothing_told :
    (o : MuxObject)
    → unref o.rxbuf_recv ++ unref o.rxbuf_pop ≡ (unref o.rxbuf_recv ++ unref o.rxbuf_pop) ++ []
nothing_told o = sym (append-nil (unref o.rxbuf_recv ++ unref o.rxbuf_pop))

receive-Step :
    (p : Platform) (reply : QueueReply) (o : MuxObject) (queue : Option ℕ)
    → o.rxqueue ≡ queue
    → Step p (receive_call reply) o
unfolding mux_receive
receive-Step p reply o none e =
    receive-Step_of p reply o network_error (without_buffers o) [] []
      (rw e (
        ap (λ r. (network_error, record (without_buffers o) { rxqueue = none }, r))
          (nothing_told o)))
      refl refl (omega arith) (λ cs. rw e refl) refl refl (λ number h. omega arith)
receive-Step p (got_buffer b) o (some q) e =
    receive-Step_of p (got_buffer b) o default (record (without_buffers o) { rxbuf_recv = some b })
      [] (b ∷ [])
      (rw e (
        ap (λ r. (default, record (without_buffers o) { rxbuf_recv = some b; rxqueue = some q }, r))
          (nothing_told o)))
      refl refl (omega arith) (λ cs. rw e refl) refl refl (λ number h. omega arith)
receive-Step p queue_failed o (some q) e =
    receive-Step_of p queue_failed o network_error (without_buffers o) [] []
      (rw e (
        ap (λ r. (network_error, record (without_buffers o) { rxqueue = some q }, r))
          (nothing_told o)))
      refl refl (omega arith) (λ cs. rw e refl) refl refl (λ number h. omega arith)
receive-Step p epipe o (some q) e =
    let lost = record (without_buffers o) { rxqueue = none } in
    let (kept, gone) = disconnect-keeps lost in
    receive-Step_of p epipe o network_error (disconnect lost).0 (disconnect lost).1 [] (rw e refl)
      (disconnect-releases lost) kept (omega arith) (λ cs. rw (e, gone) refl)
      (disconnect-callback lost) (disconnect-context lost) (disconnect-tells lost)
receive-Step p etimedout_reply o (some q) e =
    let lost = record (without_buffers o) { rxqueue = none } in
    let (kept, gone) = disconnect-keeps lost in
    receive-Step_of p etimedout_reply o network_error (disconnect lost).0 (disconnect lost).1 []
      (rw e refl) (disconnect-releases lost) kept (omega arith) (λ cs. rw (e, gone) refl)
      (disconnect-callback lost) (disconnect-context lost) (disconnect-tells lost)

pop-Step :
    (p : Platform) (cdata : ℤ) (f : Frame) (o : MuxObject) (recv pop : Option RxBuffer)
    → o.rxbuf_recv ≡ recv
    → o.rxbuf_pop ≡ pop
    → length (holds o) ≤ 1
    → Step p (pop_call cdata f) o
unfolding mux_call
pop-Step p cdata f o none pop er ep h = record {
  after = o;
  events = [];
  new = [];
  returns = rw (mux_pop_frame-empty p cdata o f er) refl;
  at_most_one = h;
  conserves = sym (append-nil (holds o));
  arrives = λ cs. refl;
  callback = refl;
  context = refl;
  tells = λ number h. omega arith;
}
pop-Step p cdata f o (some b) none er ep h =
    let (code, f', ran) = mux_pop_frame-popped p cdata o f b er ep in
    record {
      after = record o { rxbuf_recv = none; rxbuf_pop = some b };
      events = [];
      new = [];
      returns = rw ran refl;
      at_most_one = omega arith;
      conserves = rw (er, ep) refl;
      arrives = λ cs. refl;
      callback = refl;
      context = refl;
      tells = λ number h. omega arith;
    }
pop-Step p cdata f o (some b) (some c) er ep h =
    let two : length (holds o) ≡ 2 = rw (er, ep) refl in absurd (omega (arith, two, h))

pub call-Step : (p : Platform) (c : MuxCall) (o : MuxObject) → length (holds o) ≤ 1 → Step p c o
call-Step p (receive_call reply) o h = receive-Step p reply o o.rxqueue refl
call-Step p (pop_call cdata f) o h = pop-Step p cdata f o o.rxbuf_recv o.rxbuf_pop refl refl h
