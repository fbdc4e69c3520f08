-- ===== src/Tests/Data.antt =====
-- A small platform, and WiFi objects on it.
use lib_arnetwork_al.Prelude.{
  ℕ, ◌*◌, true, false, some, List, [], ◌∷◌, arith, ℤ, pos, sub_ℕ, replicate, ◌++◌,
}
use lib_arnetwork_al.Platform.{Platform, IsPlatform, Timespec, Memory, block}
use lib_arnetwork_al.Frame.{Frame}
use lib_arnetwork_al.Frame.Codec.{Message}
use lib_arnetwork_al.Wifi.Receive.{Replies, ready, received, shut_down}
use lib_arnetwork_al.Wifi.Receive.Refine.{AreReplies}
use lib_arnetwork_al.Wifi.{WifiObject, Manager, IsSender, IsReceiver}

abbrev pub ms_between : Timespec → Timespec → ℤ
ms_between a b = sub_ℕ (b.tv_sec * 1000) (a.tv_sec * 1000)

-- A packet of 40 bytes, so that a buffer has 32.
abbrev pub platform : Platform
platform = record { ip_maxpacket = 40; htodl = λ n. n; dtohl = λ n. n; ms_time_diff = ms_between }

pub platform-IsPlatform : IsPlatform platform
platform-IsPlatform = record {
  packet_min = omega arith;
  packet_max = omega arith;
  htodl-lt = λ n h. h;
  dtohl-lt = λ n h. h;
  dtohl-htodl = λ n h. omega arith;
}

abbrev pub date : ℕ → Timespec
date s = record { tv_sec = s; tv_nsec = 0 }

-- An object with 32 bytes at 8 GiB and nothing in them.
abbrev pub fresh : WifiObject
fresh = record {
  socket = pos 3;
  socket_buffer_size = pos 1000;
  fifo_read = pos 4;
  fifo_write = pos 5;
  buffer = 8589934592;
  bytes = replicate 32 0;
  current_frame = 8589934592;
  size = 0;
  timeout_sec = 1;
  last_data_received_date = date 10;
  is_disconnected = false;
  recv_is_flushed = false;
  on_disconnect = some 7;
  on_disconnect_custom_data = 70;
  bw_sem = 0;
  bw_thread_running = 1;
  bw_index = 0;
  bw_elements = replicate 10 0;
  bw_current = 0;
}

pub fresh-IsSender : IsSender platform fresh
fresh-IsSender = omega arith

pub fresh-IsReceiver : IsReceiver platform fresh
fresh-IsReceiver = omega arith

abbrev pub manager : Manager
manager = record { sender = some fresh; receiver = some fresh; dump_file = true }

-- The caller's data: `7 8 9` at 500.
abbrev pub caller : Memory
caller = block 500 (7 ∷ 8 ∷ 9 ∷ [])

abbrev pub first : Message
first = record { type = 2; id = 10; seq = 1; payload = 7 ∷ 8 ∷ [] }

abbrev pub second : Message
second = record { type = 4; id = 11; seq = 2; payload = 9 ∷ [] }

abbrev pub first_frame : Frame
first_frame = record { type = 2; id = 10; seq = 1; size = 9; data_ptr = 500 }

abbrev pub second_frame : Frame
second_frame = record { type = 4; id = 11; seq = 2; size = 8; data_ptr = 502 }

abbrev pub no_frame : Frame
no_frame = record { type = 0; id = 0; seq = 0; size = 0; data_ptr = 0 }

-- The bytes of the two frames.
abbrev pub first_bytes : List ℕ
first_bytes = 2 ∷ 10 ∷ 1 ∷ 9 ∷ 0 ∷ 0 ∷ 0 ∷ 7 ∷ 8 ∷ []

abbrev pub both_bytes : List ℕ
both_bytes = 2 ∷ 10 ∷ 1 ∷ 9 ∷ 0 ∷ 0 ∷ 0 ∷ 7 ∷ 8 ∷ 4 ∷ 11 ∷ 2 ∷ 8 ∷ 0 ∷ 0 ∷ 0 ∷ 9 ∷ []

-- A receiver and a manager that hold the two.
abbrev pub both_received : WifiObject
both_received = record fresh { bytes = both_bytes ++ replicate 15 0; size = 17 }

abbrev pub holding : Manager
holding = record manager { receiver = some both_received }

pub both_received-IsReceiver : IsReceiver platform both_received
both_received-IsReceiver = omega arith

-- The socket is ready 2 seconds after the last reception.
abbrev pub replies : Replies
replies = record {
  at_start = date 12;
  at_check = date 12;
  after_recv = date 12;
  at_save = date 12;
  select = ready true false;
  recv = received both_bytes;
  stale = [];
  last = shut_down;
}

pub replies-AreReplies : AreReplies platform replies
replies-AreReplies = record { reply = omega arith; stale = tt }
