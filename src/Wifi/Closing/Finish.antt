-- ===== src/Wifi/Closing/Finish.antt =====
-- The turns of Delete and of the bandwidth thread behind the creation of the thread.
use mathlib.Core.Path.{subst}
use lib_arnetwork_al.Prelude.{
  arith, monitor-append, List, [], false, inl, inr, length, refl, some, true, ◌++◌, ◌<◌, ◌∙◌, ◌∷◌,
  ◌≡◌, ◌≤◌, ◌⊎◌,
}
use lib_arnetwork_al.Wifi.Bandwidth.{woken}
use lib_arnetwork_al.Wifi.Closing.{
  Closing, Turn, at_deleted, at_end, at_free_reader, at_free_sender, at_join_reader, at_join_sender,
  at_signal_reader, at_signal_sender, bandwidth_turn, closing_run, closing_step, delete_turn,
  thread_started,
}
use lib_arnetwork_al.Wifi.Closing.Phases.{
  IsBlocked, Phase, ended, leave_reader, leave_sender, leaving, looping, reader_loop, sender_loop,
  state_of, turns_left, wait_loop,
}
use lib_arnetwork_al.Wifi.Closing.Turns.{
  Turned, bandwidth-IsBlocked, delete-IsBlocked, delete-Turned, turn-Turned, woken-IsBlocked,
}

-- Some turns, which leave no more turns.
abbrev Ran : List Turn → Phase → Phase → Type 0
Ran ts ph ph' =
    (closing_run ts (state_of ph) ≡ some (state_of ph')) × (turns_left ph' ≤ turns_left ph)

run-Ran : (ts : List Turn) (ph : Phase) → (ph' : Phase) × Ran ts ph ph'
run-Ran [] ph = (ph, (refl, omega arith))
run-Ran (t ∷ ts) ph =
    let (ph1, (moved, less)) = turn-Turned t ph in
    let (ph2, (ran, less')) = run-Ran ts ph1 in (ph2, (rw moved ran, omega (arith, less, less')))

Ran-append :
    (ts ts' : List Turn) (ph ph' ph'' : Phase)
    → Ran ts ph ph'
    → Ran ts' ph' ph''
    → Ran (ts ++ ts') ph ph''
Ran-append ts ts' ph ph' ph'' (ran, less) (ran', less') = (
  monitor-append closing_step ts ts' (state_of ph) (state_of ph') ran ∙ ran',
  omega (arith, less, less'),
)

one-Ran : (t : Turn) (ph ph' : Phase) → Turned t ph ph' → Ran (t ∷ []) ph ph'
one-Ran t ph ph' (moved, less) = (rw moved refl, less)

-- Turns while Delete waits: they count, or change nothing.
abbrev Counts : List Turn → Phase → Type 0
Counts ts ph = (ph' : Phase) × (Ran ts ph ph') × ((turns_left ph' < turns_left ph) ⊎ (ph' ≡ ph))

run-Counts : (ts : List Turn) (ph : Phase) → IsBlocked ph → Counts ts ph
run-Counts [] ph h = (ph, (refl, omega arith), inr refl)
run-Counts (delete_turn ∷ ts) ph h =
    let (ph', ran, side) = run-Counts ts ph h in
    (
      ph',
      Ran-append (delete_turn ∷ []) ts ph ph ph'
          (one-Ran delete_turn ph ph (delete-IsBlocked ph h, omega arith)) ran,
      side,
    )
run-Counts (bandwidth_turn w ∷ ts) ph h =
    let (ph1, moved, side) = bandwidth-IsBlocked w ph h in
    let (ph2, ran2) = run-Ran ts ph1 in
    let (ph3, ran3, side3) = run-Counts ts ph h in
    elim side [
      | inl less ↦ (
        ph2,
        Ran-append (bandwidth_turn w ∷ []) ts ph ph1 ph2 (one-Ran (bandwidth_turn w) ph ph1 moved)
            ran2,
        inl (omega (arith, less, ran2.1)),
      )
      | inr same ↦ (
        ph3,
        Ran-append (bandwidth_turn w ∷ []) ts ph ph ph3
            (subst (λ x. Ran (bandwidth_turn w ∷ []) ph x) same
              (one-Ran (bandwidth_turn w) ph ph1 moved))
            ran3,
        side3,
      )
    ]

-- Some turns, among them one of Delete, and behind it one of the bandwidth thread in which a post, if
-- there is one, wakes it.
pub record Block : Type 0 where
  pub before : List Turn
  pub between : List Turn
  pub after : List Turn

abbrev pub block_turns : Block → List Turn
block_turns b = b.before ++ (delete_turn ∷ (b.between ++ (bandwidth_turn woken ∷ b.after)))

abbrev pub fair : List Block → List Turn
fair [] = []
fair (b ∷ bs) = block_turns b ++ fair bs

abbrev Lessens : List Turn → Phase → Type 0
Lessens ts ph =
    (ph' : Phase) × (Ran ts ph ph') × ((turns_left ph' < turns_left ph) ⊎ (turns_left ph' ≡ 0))

-- From where Delete waits, past some turns, the bandwidth thread's, and some more.
blocked-Lessens :
    (ts ts' : List Turn) (ph : Phase)
    → IsBlocked ph
    → (ph' : Phase) × (Ran (ts ++ (bandwidth_turn woken ∷ ts')) ph ph')
      × (turns_left ph' < turns_left ph)
blocked-Lessens ts ts' ph h =
    let (ph1, ran1, side) = run-Counts ts ph h in
    let (ph2, ran2) = run-Ran (bandwidth_turn woken ∷ ts') ph1 in
    let (ph3, moved3, less3) = woken-IsBlocked ph h in
    let (ph4, ran4) = run-Ran ts' ph3 in
    elim side [
      | inl less ↦ (
        ph2,
        Ran-append ts (bandwidth_turn woken ∷ ts') ph ph1 ph2 ran1 ran2,
        omega (arith, less, ran2.1),
      )
      | inr same ↦ (
        ph4,
        Ran-append ts (bandwidth_turn woken ∷ ts') ph ph ph4 (subst (λ x. Ran ts ph x) same ran1) (
            Ran-append (bandwidth_turn woken ∷ []) ts' ph ph3 ph4
              (one-Ran (bandwidth_turn woken) ph ph3 moved3) ran4),
        omega (arith, less3, ran4.1),
      )
    ]

block-Lessens : (b : Block) (ph : Phase) → Lessens (block_turns b) ph
block-Lessens b ph =
    let tail = b.between ++ (bandwidth_turn woken ∷ b.after) in
    let (ph1, ran1) = run-Ran b.before ph in
    let (ph2, moved2, side) = delete-Turned ph1 in
    let (ph3, ran3) = run-Ran tail ph2 in
    let signalled = one-Ran delete_turn ph1 ph2 moved2 in
    let whole =
      Ran-append b.before (delete_turn ∷ tail) ph ph1 ph3 ran1
        (Ran-append (delete_turn ∷ []) tail ph1 ph2 ph3 signalled ran3) in
    elim side [
      | inl less ↦ (ph3, whole, inl (omega (arith, less, ran1.1, ran3.1)))
      | inr (inl none_left) ↦ (ph3, whole, inr (omega (arith, none_left, ran3.1)))
      | inr (inr (same, blocked)) ↦
          let (ph4, ran4, less4) = blocked-Lessens b.between b.after ph1 blocked in
          (
            ph4,
            Ran-append b.before (delete_turn ∷ tail) ph ph1 ph4 ran1 (
                Ran-append (delete_turn ∷ []) tail ph1 ph1 ph4
                  (subst (λ x. Ran (delete_turn ∷ []) ph1 x) same signalled) ran4),
            inl (omega (arith, less4, ran1.1)),
          )
    ]

run-fair :
    (bs : List Block) (ph : Phase)
    → turns_left ph ≤ length bs
    → (ph' : Phase) × (Ran (fair bs) ph ph') × (turns_left ph' ≡ 0)
run-fair [] ph h = (ph, (refl, omega arith), omega (arith, h))
run-fair (b ∷ bs) ph h =
    let (ph1, ran1, side) = block-Lessens b ph in
    let fewer : turns_left ph1 ≤ length bs = (elim side [
      | inl less ↦ omega (arith, less, h)
      | inr none_left ↦ omega (arith, none_left)
    ]) in
    let (ph2, ran2, none_left) = run-fair bs ph1 fewer in
    (ph2, Ran-append (block_turns b) (fair bs) ph ph1 ph2 ran1 ran2, none_left)

-- The objects of both threads are freed, and the threads are at their ends.
abbrev pub IsClosed : Closing → Type 0
IsClosed s =
    (s.bandwidth ≡ at_end)
    × (s.deleting ≡ at_deleted)
    × (s.sender_allocated ≡ false)
    × (s.reader_allocated ≡ false)

phase-IsClosed : (ph : Phase) → turns_left ph ≡ 0 → IsClosed (state_of ph)
phase-IsClosed (looping l false) h = absurd (omega (arith, h))
phase-IsClosed (looping wait_loop true) h = absurd (omega (arith, h))
phase-IsClosed (looping sender_loop true) h = absurd (omega (arith, h))
phase-IsClosed (looping reader_loop true) h = absurd (omega (arith, h))
phase-IsClosed (leaving leave_reader true sem) h = absurd (omega (arith, h))
phase-IsClosed (leaving leave_reader false sem) h = absurd (omega (arith, h))
phase-IsClosed (leaving leave_sender true sem) h = absurd (omega (arith, h))
phase-IsClosed (leaving leave_sender false sem) h = absurd (omega (arith, h))
phase-IsClosed (ended at_signal_sender sem) h = absurd (omega (arith, h))
phase-IsClosed (ended at_join_sender sem) h = absurd (omega (arith, h))
phase-IsClosed (ended at_free_sender sem) h = absurd (omega (arith, h))
phase-IsClosed (ended at_signal_reader sem) h = absurd (omega (arith, h))
phase-IsClosed (ended at_join_reader sem) h = absurd (omega (arith, h))
phase-IsClosed (ended at_free_reader sem) h = absurd (omega (arith, h))
phase-IsClosed (ended at_deleted sem) h = (refl, refl, refl, refl)

most_turns : (ph : Phase) → turns_left ph ≤ 11
most_turns (looping l false) = omega arith
most_turns (looping wait_loop true) = omega arith
most_turns (looping sender_loop true) = omega arith
most_turns (looping reader_loop true) = omega arith
most_turns (leaving leave_reader true sem) = omega arith
most_turns (leaving leave_reader false sem) = omega arith
most_turns (leaving leave_sender true sem) = omega arith
most_turns (leaving leave_sender false sem) = omega arith
most_turns (ended at_signal_sender sem) = omega arith
most_turns (ended at_join_sender sem) = omega arith
most_turns (ended at_free_sender sem) = omega arith
most_turns (ended at_signal_reader sem) = omega arith
most_turns (ended at_join_reader sem) = omega arith
most_turns (ended at_free_reader sem) = omega arith
most_turns (ended at_deleted sem) = omega arith

-- Once the bandwidth thread took its two semaphores, no order of its turns and Delete's, however its
-- waits end, lets either use an object that is freed; and wherever an order has led, every order in
-- which eleven times Delete has a turn and, later, the bandwidth thread has one in which a post, if
-- there is one, ends its wait, with any other turns around them, brings both threads to their end, with
-- both objects freed.
pub closing-ends :
    (ts : List Turn) (bs : List Block)
    → 11 ≤ length bs
    → (s s' : Closing) × (closing_run ts thread_started ≡ some s)
      × (closing_run (fair bs) s ≡ some s')
      × IsClosed s'
closing-ends ts bs h =
    let (ph, ran) = run-Ran ts (looping wait_loop false) in
    let (ph', ran', none_left) = run-fair bs ph (omega (arith, h, most_turns ph)) in
    (state_of ph, state_of ph', ran.0, ran'.0, phase-IsClosed ph' none_left)
