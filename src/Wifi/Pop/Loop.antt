-- ===== src/Wifi/Pop/Loop.antt =====
-- A caller that calls ARNETWORKAL_WifiNetwork_PopFrame until it returns something else than DEFAULT.
use mathlib.Core.Path.{subst}
use lib_arnetwork_al.Prelude.{
  arith, drop-nil, length-drop, sym, ap, List, Option, [], false, length, none, refl, some, suc,
  zero, ℕ, ◌+◌, ◌<◌, ◌∙◌, ◌≡◌,
}
use lib_arnetwork_al.Platform.{IsPlatform, Platform}
use lib_arnetwork_al.Frame.{
  Frame, Parsed, Return, bad, bad_frame, buffer_empty, default, empty, got, is_default, parse,
  reset_frame,
}
use lib_arnetwork_al.Frame.Codec.{parse-got}
use lib_arnetwork_al.Wifi.{Event, IsReceiver, Manager, WifiObject, unread}
use lib_arnetwork_al.Wifi.Pop.{pop_frame, rewind}
use lib_arnetwork_al.Wifi.Pop.Refine.{
  dump_after, expected, frame_after, pop_frame_refines, receiver_after,
}
use lib_arnetwork_al.Wifi.Pop.Safety.{moved, receiver_after-IsReceiver, unread-advance}

-- At most so many calls; `none` where they are not enough, and where one faults.
unfoldable pub pop_all : Platform → ℕ → Manager → Frame → Option (Return × Manager × Frame)
pop_all p zero m f = none
pop_all p (suc fuel) m f = elim (pop_frame p m f) [
  | some (default, m', f', events) ↦ pop_all p fuel m' f'
  | some (r, m', f', events) ↦ some (r, m', f')
  | none ↦ none
]

-- No head that the calls come to holds a size of 0.
abbrev pub HeadHasSize : (List ℕ → Type 0) → Parsed → Type 0
HeadHasSize next empty = Unit {0}
HeadHasSize next bad = Unit {0}
HeadHasSize next (got t i s n rest) = (0 < n) × next rest

abbrev pub HeadsHaveSize : Platform → ℕ → List ℕ → Type 0
HeadsHaveSize p zero u = Unit {0}
HeadsHaveSize p (suc fuel) u = HeadHasSize (HeadsHaveSize p fuel) (parse p u)

-- What the loop gives.
abbrev pub Ends : Platform → ℕ → Manager → Frame → Type 0
Ends p fuel m f =
    (r : Return) × (o' : WifiObject) × (f' : Frame) × (pop_all p fuel m f
      ≡ some (r, record m { receiver = some o' }, f'))
    × (is_default r ≡ false)
    × IsReceiver p o'
    × (unread o' ≡ [])

module _ {p : Platform} (fuel : ℕ) (m : Manager) (o : WifiObject) (f : Frame) (ip : IsPlatform p)
    (v : IsReceiver p o) (at : m.receiver ≡ some o) where
  popped : (r : Parsed) → parse p (unread o) ≡ r → pop_frame p m f ≡ some (expected m o f r)
  popped r e = pop_frame_refines m o f ip v at ∙ ap (λ r. some (expected m o f r)) e

  rewound : IsReceiver p (rewind o)
  rewound = moved v o.buffer 0 (omega arith) (omega arith) (omega arith)

  one_call :
      (r : Parsed)
      → parse p (unread o) ≡ r
      → length (unread o) < suc fuel
      → HeadHasSize (HeadsHaveSize p fuel) r
      → ((m' : Manager) (o' : WifiObject) (f' : Frame)
          → IsReceiver p o'
          → m'.receiver ≡ some o'
          → length (unread o') < fuel
          → HeadsHaveSize p fuel (unread o')
          → Ends p fuel m' f')
      → Ends p (suc fuel) m f
  unfolding pop_all
  one_call empty e h sized next = (
    buffer_empty,
    rewind o,
    reset_frame f,
    rw (popped empty e, pop_all) refl,
    refl,
    rewound,
    drop-nil _,
  )
  one_call bad e h sized next = (
    bad_frame,
    rewind o,
    reset_frame f,
    rw (popped bad e, pop_all) refl,
    refl,
    rewound,
    drop-nil _,
  )
  one_call (got t i s n rest) e h (positive, sized) next =
      let (bound, tail) = parse-got p (unread o) e in
      let after = receiver_after o (got t i s n rest) in
      let left : unread after ≡ rest = unread-advance v n ∙ sym tail in
      let (r, o', f', ran, stops, valid, emptied) =
        next (record m { receiver = some after }) after (frame_after o f (got t i s n rest))
          (receiver_after-IsReceiver v (got t i s n rest) e) refl
          (omega
            (arith, h, positive, bound, ap length left, ap length tail, length-drop n (unread o)))
          (subst (HeadsHaveSize p fuel) (sym left) sized) in
      (r, o', f', rw (popped (got t i s n rest) e, pop_all) ran, stops, valid, emptied)

  stays : o ≡ record o { current_frame = o.current_frame + 0 }
  stays = ap (λ k. record o { current_frame = k }) {x = o.current_frame} (omega arith)

  popped_nothing :
      (t i s : ℕ) (rest : List ℕ)
      → parse p (unread o) ≡ got t i s 0 rest
      → pop_frame p m f
        ≡ some (
          default,
          m,
          frame_after o f (got t i s 0 rest),
          dump_after m.dump_file o (got t i s 0 rest),
        )
  popped_nothing t i s rest e =
      popped (got t i s 0 rest) e
      ∙ ap
          (λ x. some (
            default,
            record m { receiver = x },
            frame_after o f (got t i s 0 rest),
            dump_after m.dump_file o (got t i s 0 rest),
          ))
          (ap some (sym stays) ∙ sym at)

-- On a valid receiver, whatever was received, if no head that the calls come to holds a size of 0, then
-- as many calls of PopFrame as there are unread bytes, and one more, come to one that does not return
-- DEFAULT; the receiver is then valid, and no byte of it is unread.
pub pop_all-Ends :
    {p : Platform} (fuel : ℕ) (m : Manager) (o : WifiObject) (f : Frame)
    → IsPlatform p
    → IsReceiver p o
    → m.receiver ≡ some o
    → length (unread o) < fuel
    → HeadsHaveSize p fuel (unread o)
    → Ends p fuel m f
pop_all-Ends zero m o f ip v at h sized = absurd (omega arith)
pop_all-Ends {p} (suc fuel) m o f ip v at h sized =
    one_call fuel m o f ip v at (parse p (unread o)) refl h sized
      (λ m' o' f' v' at' h' sized'. pop_all-Ends fuel m' o' f' ip v' at' h' sized')

-- On a valid receiver whose unread bytes start with a whole head that holds a size of 0, PopFrame
-- returns DEFAULT and leaves the manager as it was, so that no number of calls comes to an end.
pub pop_all-stuck :
    {p : Platform} (fuel : ℕ) (m : Manager) (o : WifiObject) (f : Frame) (t i s : ℕ) (rest : List ℕ)
    → IsPlatform p
    → IsReceiver p o
    → m.receiver ≡ some o
    → parse p (unread o) ≡ got t i s 0 rest
    → ((f' : Frame) × (es : List Event) × (pop_frame p m f ≡ some (default, m, f', es)))
      × (pop_all p fuel m f ≡ none)
unfolding pop_all
pop_all-stuck zero m o f t i s rest ip v at e =
    ((_, _, popped_nothing zero m o f ip v at t i s rest e), refl)
pop_all-stuck (suc fuel) m o f t i s rest ip v at e =
    let once = popped_nothing fuel m o f ip v at t i s rest e in
    ((_, _, once), rw (once, pop_all) (pop_all-stuck fuel m o _ t i s rest ip v at e).1)
