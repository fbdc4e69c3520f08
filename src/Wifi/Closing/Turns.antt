-- ===== src/Wifi/Closing/Turns.antt =====
-- How each turn moves between the states that the bandwidth thread and Delete come to.
use lib_arnetwork_al.Prelude.{
  arith, Bool, false, inl, inr, refl, some, true, ◌+◌, ◌<◌, ◌≡◌, ◌≤◌, ◌⊎◌,
}
use lib_arnetwork_al.Platform.{eacces, eagain, enxio, etimedout, other}
use lib_arnetwork_al.Wifi.Bandwidth.{Wait, wait_failed, woken}
use lib_arnetwork_al.Wifi.Closing.{
  Turn, at_deleted, at_free_reader, at_free_sender, at_join_reader, at_join_sender,
  at_signal_reader, at_signal_sender, bandwidth_step, bandwidth_turn, closing_step, delete_step,
  delete_turn,
}
use lib_arnetwork_al.Wifi.Closing.Phases.{
  IsBlocked, Phase, ended, leave_reader, leave_sender, leaving, looping, reader_loop, sender_loop,
  state_of, turns_left, wait_loop,
}

-- One turn, which leaves no more turns.
abbrev pub Turned : Turn → Phase → Phase → Type 0
Turned t ph ph' =
    (closing_step t (state_of ph) ≡ some (state_of ph')) × (turns_left ph' ≤ turns_left ph)

wait-Turned :
    (w : Wait) (signalled : Bool)
    → (ph' : Phase) × Turned (bandwidth_turn w) (looping wait_loop signalled) ph'
unfolding bandwidth_step
wait-Turned woken true = (leaving leave_reader true 0, (refl, omega arith))
wait-Turned woken false = (looping wait_loop false, (refl, omega arith))
wait-Turned (wait_failed etimedout) true = (looping wait_loop true, (refl, omega arith))
wait-Turned (wait_failed etimedout) false = (looping sender_loop false, (refl, omega arith))
wait-Turned (wait_failed eagain) true = (leaving leave_reader true 1, (refl, omega arith))
wait-Turned (wait_failed eagain) false = (leaving leave_reader false 0, (refl, omega arith))
wait-Turned (wait_failed eacces) true = (leaving leave_reader true 1, (refl, omega arith))
wait-Turned (wait_failed eacces) false = (leaving leave_reader false 0, (refl, omega arith))
wait-Turned (wait_failed enxio) true = (leaving leave_reader true 1, (refl, omega arith))
wait-Turned (wait_failed enxio) false = (leaving leave_reader false 0, (refl, omega arith))
wait-Turned (wait_failed other) true = (leaving leave_reader true 1, (refl, omega arith))
wait-Turned (wait_failed other) false = (leaving leave_reader false 0, (refl, omega arith))

bandwidth-Turned : (w : Wait) (ph : Phase) → (ph' : Phase) × Turned (bandwidth_turn w) ph ph'
unfolding bandwidth_step
bandwidth-Turned w (looping wait_loop signalled) = wait-Turned w signalled
bandwidth-Turned w (looping sender_loop true) = (looping reader_loop true, (refl, omega arith))
bandwidth-Turned w (looping sender_loop false) = (looping reader_loop false, (refl, omega arith))
bandwidth-Turned w (looping reader_loop true) = (looping wait_loop true, (refl, omega arith))
bandwidth-Turned w (looping reader_loop false) = (looping wait_loop false, (refl, omega arith))
bandwidth-Turned w (leaving leave_reader true sem) =
    (leaving leave_sender true sem, (refl, omega arith))
bandwidth-Turned w (leaving leave_reader false sem) =
    (leaving leave_sender false sem, (refl, omega arith))
bandwidth-Turned w (leaving leave_sender true sem) = (ended at_join_sender sem, (refl, omega arith))
bandwidth-Turned w (leaving leave_sender false sem) =
    (ended at_signal_sender sem, (refl, omega arith))
bandwidth-Turned w (ended at_signal_sender sem) = (ended at_signal_sender sem, (refl, omega arith))
bandwidth-Turned w (ended at_join_sender sem) = (ended at_join_sender sem, (refl, omega arith))
bandwidth-Turned w (ended at_free_sender sem) = (ended at_free_sender sem, (refl, omega arith))
bandwidth-Turned w (ended at_signal_reader sem) = (ended at_signal_reader sem, (refl, omega arith))
bandwidth-Turned w (ended at_join_reader sem) = (ended at_join_reader sem, (refl, omega arith))
bandwidth-Turned w (ended at_free_reader sem) = (ended at_free_reader sem, (refl, omega arith))
bandwidth-Turned w (ended at_deleted sem) = (ended at_deleted sem, (refl, omega arith))

-- A turn of Delete counts, unless it waits or is at its end.
abbrev pub DeleteTurned : Phase → Type 0
DeleteTurned ph =
    (ph' : Phase) × (Turned delete_turn ph ph')
    × ((turns_left ph' < turns_left ph) ⊎ ((turns_left ph' ≡ 0) ⊎ ((ph' ≡ ph) × IsBlocked ph)))

pub delete-Turned : (ph : Phase) → DeleteTurned ph
unfolding delete_step
delete-Turned (looping wait_loop false) =
    (looping wait_loop true, (refl, omega arith), inl (omega arith))
delete-Turned (looping sender_loop false) =
    (looping sender_loop true, (refl, omega arith), inl (omega arith))
delete-Turned (looping reader_loop false) =
    (looping reader_loop true, (refl, omega arith), inl (omega arith))
delete-Turned (looping l true) = (looping l true, (refl, omega arith), inr (inr (refl, tt)))
delete-Turned (leaving leave_reader false sem) =
    (leaving leave_reader true (1 + sem), (refl, omega arith), inl (omega arith))
delete-Turned (leaving leave_sender false sem) =
    (leaving leave_sender true (1 + sem), (refl, omega arith), inl (omega arith))
delete-Turned (leaving leave_reader true sem) =
    (leaving leave_reader true sem, (refl, omega arith), inr (inr (refl, tt)))
delete-Turned (leaving leave_sender true sem) =
    (leaving leave_sender true sem, (refl, omega arith), inr (inr (refl, tt)))
delete-Turned (ended at_signal_sender sem) =
    (ended at_join_sender (1 + sem), (refl, omega arith), inl (omega arith))
delete-Turned (ended at_join_sender sem) =
    (ended at_free_sender sem, (refl, omega arith), inl (omega arith))
delete-Turned (ended at_free_sender sem) =
    (ended at_signal_reader sem, (refl, omega arith), inl (omega arith))
delete-Turned (ended at_signal_reader sem) =
    (ended at_join_reader sem, (refl, omega arith), inl (omega arith))
delete-Turned (ended at_join_reader sem) =
    (ended at_free_reader sem, (refl, omega arith), inl (omega arith))
delete-Turned (ended at_free_reader sem) =
    (ended at_deleted sem, (refl, omega arith), inl (omega arith))
delete-Turned (ended at_deleted sem) = (ended at_deleted sem, (refl, omega arith), inr (inl refl))

pub turn-Turned : (t : Turn) (ph : Phase) → (ph' : Phase) × Turned t ph ph'
turn-Turned (bandwidth_turn w) ph = bandwidth-Turned w ph
turn-Turned delete_turn ph = let (ph', moved, others) = delete-Turned ph in (ph', moved)

-- While Delete waits, its turns change nothing, a turn of the bandwidth thread counts or changes
-- nothing, and counts where a post wakes it.
pub delete-IsBlocked :
    (ph : Phase) → IsBlocked ph → closing_step delete_turn (state_of ph) ≡ some (state_of ph)
unfolding delete_step
delete-IsBlocked (looping l true) h = refl
delete-IsBlocked (looping l false) h = absurd h
delete-IsBlocked (leaving leave_reader true sem) h = refl
delete-IsBlocked (leaving leave_sender true sem) h = refl
delete-IsBlocked (leaving l false sem) h = absurd h
delete-IsBlocked (ended d sem) h = absurd h

abbrev pub BlockedTurned : Wait → Phase → Type 0
BlockedTurned w ph =
    (ph' : Phase) × (Turned (bandwidth_turn w) ph ph')
    × ((turns_left ph' < turns_left ph) ⊎ (ph' ≡ ph))

wait-IsBlocked : (w : Wait) → BlockedTurned w (looping wait_loop true)
unfolding bandwidth_step
wait-IsBlocked woken = (leaving leave_reader true 0, (refl, omega arith), inl (omega arith))
wait-IsBlocked (wait_failed etimedout) = (looping wait_loop true, (refl, omega arith), inr refl)
wait-IsBlocked (wait_failed eagain) =
    (leaving leave_reader true 1, (refl, omega arith), inl (omega arith))
wait-IsBlocked (wait_failed eacces) =
    (leaving leave_reader true 1, (refl, omega arith), inl (omega arith))
wait-IsBlocked (wait_failed enxio) =
    (leaving leave_reader true 1, (refl, omega arith), inl (omega arith))
wait-IsBlocked (wait_failed other) =
    (leaving leave_reader true 1, (refl, omega arith), inl (omega arith))

pub bandwidth-IsBlocked : (w : Wait) (ph : Phase) → IsBlocked ph → BlockedTurned w ph
unfolding bandwidth_step
bandwidth-IsBlocked w (looping wait_loop true) h = wait-IsBlocked w
bandwidth-IsBlocked w (looping sender_loop true) h =
    (looping reader_loop true, (refl, omega arith), inl (omega arith))
bandwidth-IsBlocked w (looping reader_loop true) h =
    (looping wait_loop true, (refl, omega arith), inl (omega arith))
bandwidth-IsBlocked w (looping l false) h = absurd h
bandwidth-IsBlocked w (leaving leave_reader true sem) h =
    (leaving leave_sender true sem, (refl, omega arith), inl (omega arith))
bandwidth-IsBlocked w (leaving leave_sender true sem) h =
    (ended at_join_sender sem, (refl, omega arith), inl (omega arith))
bandwidth-IsBlocked w (leaving l false sem) h = absurd h
bandwidth-IsBlocked w (ended d sem) h = absurd h

pub woken-IsBlocked :
    (ph : Phase)
    → IsBlocked ph
    → (ph' : Phase) × (Turned (bandwidth_turn woken) ph ph') × (turns_left ph' < turns_left ph)
unfolding bandwidth_step
woken-IsBlocked (looping wait_loop true) h =
    (leaving leave_reader true 0, (refl, omega arith), omega arith)
woken-IsBlocked (looping sender_loop true) h =
    (looping reader_loop true, (refl, omega arith), omega arith)
woken-IsBlocked (looping reader_loop true) h =
    (looping wait_loop true, (refl, omega arith), omega arith)
woken-IsBlocked (looping l false) h = absurd h
woken-IsBlocked (leaving leave_reader true sem) h =
    (leaving leave_sender true sem, (refl, omega arith), omega arith)
woken-IsBlocked (leaving leave_sender true sem) h =
    (ended at_join_sender sem, (refl, omega arith), omega arith)
woken-IsBlocked (leaving l false sem) h = absurd h
woken-IsBlocked (ended d sem) h = absurd h
