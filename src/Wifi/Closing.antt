-- ===== src/Wifi/Closing.antt =====
-- ARNETWORKAL_WifiNetwork_BandwidthThread and _Delete of Sources/Wifi/ARNETWORKAL_WifiNetwork.c as two
-- threads on one manager, with the semaphores that they meet on. What Delete does to sockets, pipes
-- and buffers, which the other thread does not use, stands in Lifecycle/Release.antt.
pub mod Phases
pub mod Turns
pub mod Finish
use lib_arnetwork_al.Prelude.{
  Bool, List, Option, false, if◌then◌else◌, monitor, none, not, some, suc, true, zero, ℕ, ◌+◌, ◌==◌,
}
use lib_arnetwork_al.Platform.{Errno, etimedout}
use lib_arnetwork_al.Wifi.Bandwidth.{Wait, wait_failed, woken}

-- Where the bandwidth thread is: before its two waits, in a timed wait on the sender's `bw_sem`, before
-- the two halves of a round, before its two posts, and at its end.
pub data BandwidthPc : Type 0 where
  at_take_sender at_take_reader : BandwidthPc
  at_timed_wait at_sender_round at_reader_round : BandwidthPc
  at_post_reader at_post_sender at_end : BandwidthPc

-- Where Delete is: for each object before its post, its wait, and its destroy and free; at the end.
pub data DeletePc : Type 0 where
  at_signal_sender at_join_sender at_free_sender : DeletePc
  at_signal_reader at_join_reader at_free_reader : DeletePc
  at_deleted : DeletePc

-- The counts of the semaphores, whether the objects are allocated, and the two threads.
pub record Closing : Type 0 where
  pub sender_sem : ℕ
  pub reader_sem : ℕ
  pub sender_running : ℕ
  pub reader_running : ℕ
  pub sender_allocated : Bool
  pub reader_allocated : Bool
  pub bandwidth : BandwidthPc
  pub deleting : DeletePc

-- ARSAL_Sem_Wait, which leaves a count of 0 to wait.
abbrev pub take_one : ℕ → Option ℕ
take_one zero = none
take_one (suc n) = some n

-- A thread whose wait would block stays where it is.
abbrev pub wait_on : Option ℕ → (stay : Closing) → (go : ℕ → Closing) → Option Closing
wait_on none stay go = some stay
wait_on (some n) stay go = some (go n)

-- The end of a timed wait: a post that is there is taken, a timeout comes only where there is none,
-- and any other failure ends the loop.
abbrev pub timed_wait : Wait → Closing → Closing
timed_wait woken s = elim (take_one s.sender_sem) [
  | none ↦ s
  | some n ↦ record s { sender_sem = n; bandwidth = at_post_reader }
]
timed_wait (wait_failed e) s = elim e [
  | etimedout ↦ if s.sender_sem == 0 then record s { bandwidth = at_sender_round } else s
  | _ ↦ record s { bandwidth = at_post_reader }
]

-- `none` where the thread would use an object that is freed.
abbrev pub using : (allocated : Bool) → Option Closing → Option Closing
using true s = s
using false s = none

-- One step of BandwidthThread; `w` is how the timed wait ends, where it stands there.
unfoldable pub bandwidth_step : Wait → Closing → Option Closing
bandwidth_step w s = elim s.bandwidth [
  | at_take_sender ↦ using s.sender_allocated (
      wait_on (take_one s.sender_running) s
        (λ n. record s { sender_running = n; bandwidth = at_take_reader }))
  | at_take_reader ↦ using s.reader_allocated (
      wait_on (take_one s.reader_running) s
        (λ n. record s { reader_running = n; bandwidth = at_timed_wait }))
  | at_timed_wait ↦ using s.sender_allocated (some (timed_wait w s))
  | at_sender_round ↦ using s.sender_allocated (some (record s { bandwidth = at_reader_round }))
  | at_reader_round ↦ using s.reader_allocated (some (record s { bandwidth = at_timed_wait }))
  | at_post_reader ↦
      using s.reader_allocated
        (some (record s { reader_running = 1 + s.reader_running; bandwidth = at_post_sender }))
  | at_post_sender ↦
      using s.sender_allocated
        (some (record s { sender_running = 1 + s.sender_running; bandwidth = at_end }))
  | at_end ↦ some s
]

-- One step of Delete, on a manager with both objects.
unfoldable pub delete_step : Closing → Option Closing
delete_step s = elim s.deleting [
  | at_signal_sender ↦
      using s.sender_allocated
        (some (record s { sender_sem = 1 + s.sender_sem; deleting = at_join_sender }))
  | at_join_sender ↦ using s.sender_allocated (
      wait_on (take_one s.sender_running) s
        (λ n. record s { sender_running = n; deleting = at_free_sender }))
  | at_free_sender ↦
      using s.sender_allocated
        (some (record s { sender_allocated = false; deleting = at_signal_reader }))
  | at_signal_reader ↦
      using s.reader_allocated
        (some (record s { reader_sem = 1 + s.reader_sem; deleting = at_join_reader }))
  | at_join_reader ↦ using s.reader_allocated (
      wait_on (take_one s.reader_running) s
        (λ n. record s { reader_running = n; deleting = at_free_reader }))
  | at_free_reader ↦
      using s.reader_allocated (some (record s { reader_allocated = false; deleting = at_deleted }))
  | at_deleted ↦ some s
]

-- Which thread moves.
pub data Turn : Type 0 where
  bandwidth_turn : Wait → Turn
  delete_turn : Turn

abbrev pub closing_step : Turn → Closing → Option Closing
closing_step (bandwidth_turn w) s = bandwidth_step w s
closing_step delete_turn s = delete_step s

-- The two threads, in any order.
abbrev pub closing_run : List Turn → Closing → Option Closing
closing_run = monitor closing_step

-- What New leaves, with both threads at their start, and the same once the bandwidth thread took its
-- two semaphores.
abbrev pub closing_start : Closing
closing_start = record {
  sender_sem = 0;
  reader_sem = 0;
  sender_running = 1;
  reader_running = 1;
  sender_allocated = true;
  reader_allocated = true;
  bandwidth = at_take_sender;
  deleting = at_signal_sender;
}

abbrev pub thread_started : Closing
thread_started = record closing_start {
  sender_running = 0;
  reader_running = 0;
  bandwidth = at_timed_wait;
}
