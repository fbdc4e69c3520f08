-- ===== src/Mux/Conserve.antt =====
-- What becomes of the received buffers of the mux network, and of its notice of a disconnection.
pub mod Step
use lib_arnetwork_al.Prelude.{
  List, [], ap, append-nil, append_assoc, arith, length, refl, some, sym, ℕ, ◌++◌, ◌+◌, ◌∙◌, ◌∷◌,
  ◌≡◌, ◌≤◌,
}
use lib_arnetwork_al.Platform.{Platform}
use lib_arnetwork_al.Mux.{MuxEvent, MuxObject}
use lib_arnetwork_al.Mux.Buffers.{MuxCall, arrivals, holds, mux_run, releases, releases-append}
use lib_arnetwork_al.Mux.Conserve.Step.{call-Step, told, told-append, untold}

-- A run, step by step. Its context stays the same.
pub mux_run-keeps :
    (p : Platform) (cs : List MuxCall) (o : MuxObject) (number : ℕ)
    → length (holds o) ≤ 1
    → o.on_disconnect ≡ some number
    → (o' : MuxObject) × (es : List MuxEvent) × (mux_run p cs o ≡ some (o', es))
      × (length (holds o') ≤ 1)
      × (releases es ++ holds o' ≡ holds o ++ arrivals o.rxqueue cs)
      × (told es + untold o' ≡ untold o)
      × (o'.ctx ≡ o.ctx)
unfolding mux_run
mux_run-keeps p [] o number h set = (o, [], refl, h, sym (append-nil (holds o)), omega arith, refl)
mux_run-keeps p (c ∷ cs) o number h set =
    let s = call-Step p c o h in
    let (o'', es', ran, h'', kept, tells, same) =
      mux_run-keeps p cs s.after number s.at_most_one (s.callback ∙ set) in
    (
      o'',
      s.events ++ es',
      rw (s.returns, ran) refl,
      h'',
      ap (λ r. r ++ holds o'') (releases-append s.events es')
          ∙ (append_assoc (releases s.events) (releases es') (holds o'')
              ∙ (ap (λ r. releases s.events ++ r) kept
                  ∙ (sym (
                        append_assoc (releases s.events) (holds s.after)
                          (arrivals s.after.rxqueue cs))
                      ∙ (ap (λ r. r ++ arrivals s.after.rxqueue cs) s.conserves
                          ∙ (append_assoc (holds o) s.new (arrivals s.after.rxqueue cs)
                              ∙ ap (λ r. holds o ++ r) (sym (s.arrives cs))))))),
      omega (arith, told-append s.events es', s.tells number set, tells),
      same ∙ s.context,
    )

-- On an object that holds at most one received buffer and has the application's callback, any
-- sequence of calls of Receive and PopFrame returns, and the object holds at most one behind it; the
-- buffers that were released and the one that is held are, in order, the one that was held before
-- and those that the queue gave: none is lost, and none is released twice. The application is told
-- of a disconnection once if the object is disconnected behind the calls and was not before, and else
-- never.
pub mux_run-releases :
    (p : Platform) (cs : List MuxCall) (o : MuxObject) (number : ℕ)
    → length (holds o) ≤ 1
    → o.on_disconnect ≡ some number
    → (o' : MuxObject) × (es : List MuxEvent) × (mux_run p cs o ≡ some (o', es))
      × (length (holds o') ≤ 1)
      × (releases es ++ holds o' ≡ holds o ++ arrivals o.rxqueue cs)
      × (told es + untold o' ≡ untold o)
mux_run-releases p cs o number h set =
    let (o', es, ran, one, kept, tells, same) = mux_run-keeps p cs o number h set in
    (o', es, ran, one, kept, tells)
