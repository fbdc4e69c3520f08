-- ===== src/Wifi/Closing/Phases.antt =====
-- The states that the bandwidth thread and Delete come to, once the thread runs.
use lib_arnetwork_al.Prelude.{Bool, false, if◌then◌else◌, true, ℕ}
use lib_arnetwork_al.Wifi.Closing.{
  BandwidthPc, Closing, DeletePc, at_deleted, at_end, at_free_reader, at_free_sender,
  at_join_reader, at_join_sender, at_post_reader, at_post_sender, at_reader_round, at_sender_round,
  at_signal_reader, at_signal_sender, at_timed_wait,
}

-- In the loop; at the two posts; and behind them.
pub data Loop : Type 0 where
  wait_loop sender_loop reader_loop : Loop

pub data Leave : Type 0 where
  leave_reader leave_sender : Leave

-- Whether Delete signalled already.
pub data Phase : Type 0 where
  looping : Loop → (signalled : Bool) → Phase
  leaving : Leave → (signalled : Bool) → (sem : ℕ) → Phase
  ended : DeletePc → (sem : ℕ) → Phase

abbrev pub loop_pc : Loop → BandwidthPc
loop_pc l = elim l [
  | wait_loop ↦ at_timed_wait
  | sender_loop ↦ at_sender_round
  | reader_loop ↦ at_reader_round
]

abbrev pub signal_pc : Bool → DeletePc
signal_pc signalled = if signalled then at_join_sender else at_signal_sender

abbrev pub ended_state : ℕ → (rsem sr rr : ℕ) → (sa ra : Bool) → DeletePc → Closing
ended_state sem rsem sr rr sa ra d = record {
  sender_sem = sem;
  reader_sem = rsem;
  sender_running = sr;
  reader_running = rr;
  sender_allocated = sa;
  reader_allocated = ra;
  bandwidth = at_end;
  deleting = d;
}

-- The state of each phase.
abbrev pub state_of : Phase → Closing
state_of (looping l signalled) = record {
  sender_sem = if signalled then 1 else 0;
  reader_sem = 0;
  sender_running = 0;
  reader_running = 0;
  sender_allocated = true;
  reader_allocated = true;
  bandwidth = loop_pc l;
  deleting = signal_pc signalled;
}
state_of (leaving leave_reader signalled sem) = record {
  sender_sem = sem;
  reader_sem = 0;
  sender_running = 0;
  reader_running = 0;
  sender_allocated = true;
  reader_allocated = true;
  bandwidth = at_post_reader;
  deleting = signal_pc signalled;
}
state_of (leaving leave_sender signalled sem) = record {
  sender_sem = sem;
  reader_sem = 0;
  sender_running = 0;
  reader_running = 1;
  sender_allocated = true;
  reader_allocated = true;
  bandwidth = at_post_sender;
  deleting = signal_pc signalled;
}
state_of (ended at_signal_sender sem) = ended_state sem 0 1 1 true true at_signal_sender
state_of (ended at_join_sender sem) = ended_state sem 0 1 1 true true at_join_sender
state_of (ended at_free_sender sem) = ended_state sem 0 0 1 true true at_free_sender
state_of (ended at_signal_reader sem) = ended_state sem 0 0 1 false true at_signal_reader
state_of (ended at_join_reader sem) = ended_state sem 1 0 1 false true at_join_reader
state_of (ended at_free_reader sem) = ended_state sem 1 0 0 false true at_free_reader
state_of (ended at_deleted sem) = ended_state sem 1 0 0 false false at_deleted

-- How many turns that count are left.
abbrev pub turns_left : Phase → ℕ
turns_left (looping l false) = 11
turns_left (looping sender_loop true) = 10
turns_left (looping reader_loop true) = 9
turns_left (looping wait_loop true) = 8
turns_left (leaving leave_reader false sem) = 8
turns_left (leaving leave_reader true sem) = 7
turns_left (leaving leave_sender false sem) = 7
turns_left (leaving leave_sender true sem) = 6
turns_left (ended at_signal_sender sem) = 6
turns_left (ended at_join_sender sem) = 5
turns_left (ended at_free_sender sem) = 4
turns_left (ended at_signal_reader sem) = 3
turns_left (ended at_join_reader sem) = 2
turns_left (ended at_free_reader sem) = 1
turns_left (ended at_deleted sem) = 0

-- Delete waits for the bandwidth thread.
abbrev pub IsBlocked : Phase → Type 0
IsBlocked (looping l true) = Unit {0}
IsBlocked (leaving l true sem) = Unit {0}
IsBlocked (looping l false) = ⊥
IsBlocked (leaving l false sem) = ⊥
IsBlocked (ended d sem) = ⊥
