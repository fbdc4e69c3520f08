-- ===== src/Lib.antt =====
-- libARNetworkAL hides the network below ARNetwork: a manager (Includes/libARNetworkAL/
-- ARNETWORKAL_Manager.h) carries the functions of one network and its two objects, one that sends
-- and one that receives. An application pushes frames into the sender's buffer, has them sent,
-- receives datagrams into the receiver's buffer and pops frames from there, from several threads.
--
-- What models what:
-- - Frame.antt, Frame/Codec.antt: ARNETWORKAL_Frame_t (Includes/libARNetworkAL/ARNETWORKAL_Frame.h),
--   the return codes, and the bytes of a frame: `encode` and `parse`, which are the specification.
-- - Errors.antt: eARNETWORKAL_ERROR.
-- - Platform.antt: what the code takes from elsewhere.
-- - Wifi.antt: the object and the manager of Sources/Wifi/ARNETWORKAL_WifiNetwork.c, the events that
--   a call has outside of them, and when a sender and a receiver are valid. Of that file,
--   Wifi/Push.antt has PushFrame and GetAvailableSendSize, Wifi/Pop.antt PopFrame, Wifi/Send.antt
--   Send, Wifi/Receive.antt Receive, IsTooLongWithoutReceive and FlushReceiveSocket,
--   Wifi/Bandwidth.antt GetBandwidth and the loop of BandwidthThread, Wifi/Lifecycle.antt New, Connect,
--   Bind, SetOnDisconnectCallback, Signal and Cancel, Wifi/Lifecycle/Release.antt Delete, and
--   Wifi/Options.antt the buffer sizes and the class selectors.
-- - Wifi/Transfer.antt composes push, send, receive and pop into one transfer, Wifi/Session.antt has
--   sequences of calls, and Wifi/Session/Threads.antt parts them into those of a sending and of a
--   receiving thread. A call is whole there: the code has no lock, and what two calls do at the same
--   time to the two flags `isDisconnected` is not modelled.
-- - Mux.antt: PushFrame, PopFrame, Receive, SetOnDisconnectCallback and the object of
--   Sources/Mux/ARNETWORKAL_MuxNetwork.c, which sends and receives at once; Mux/Transfer.antt carries a
--   frame, Mux/Buffers.antt and Mux/Conserve.antt follow the received buffers over several calls.
-- - Mux/Network.antt: the rest of Sources/Mux/ARNETWORKAL_MuxNetwork.c, with InitMuxNetwork and
--   CloseMuxNetwork; Mux/Network/Life.antt has a whole life.
-- - Manager.antt: the table of functions of a manager, InitWifiNetwork and CloseWifiNetwork of
--   Sources/ARNETWORKAL_Manager.c; Manager/Clean.antt has what a failed initialisation leaves. Of that
--   file, Manager/Generic.antt has the functions that go through the table, Manager/Ble.antt the BLE
--   network's initialisation, Manager/BleOpening.antt that with the BLE network's own functions, and
--   Manager/Dump.antt New, Delete and the dump file. A pointer of the table holds a function by its
--   network and its operation. Manager/Reach.antt with its children says which function answers behind
--   which initialisations, and Manager/Dump/Life.antt follows the file.
--   Manager/Popping.antt is what a caller that pops relies on, an interface that Manager/Popping/Networks.antt
--   fills for the WiFi, the mux and the BLE network.
-- - Wifi/Closing.antt: BandwidthThread and Delete of the WiFi network as two threads, each with a place
--   in its code; Wifi/Closing/Phases.antt lists the states that they come to, Wifi/Closing/Turns.antt
--   how a turn moves between them, and Wifi/Closing/Finish.antt has how they end. Wifi/Pop/Loop.antt
--   has a caller that pops until there is nothing more.
-- - JniBle.antt: the object of JNI/c/ARNETWORKAL_JNIBLENetwork.c, the thread of a call and the events
--   that the Java virtual machine sees; JniBle/Object.antt, JniBle/Frames.antt and JniBle/Calls.antt have
--   its functions, JniBle/Ledger.antt the book of references that the virtual machine keeps,
--   JniBle/Life.antt and its children whole lives of an object, JniBle/Transfer.antt a frame's way,
--   and JniBle/Answers.antt what PopFrame makes of each DataPop.
-- - Ble.antt: the object of Sources/BLE/ARNETWORKAL_BLENetwork.m and the messages that it sends to the BLE
--   manager of libARSAL; Ble/Frames.antt has pushFrame, popFrame and receive, Ble/Bandwidth.antt the
--   bandwidth measure, Ble/Connect.antt the connection, and Ble/Calls.antt the rest with the C functions.
--   Ble/Queue.antt and Ble/Transfer.antt are about frames, Ble/Bandwidth/Same.antt about the measure, and
--   Ble/Life.antt with its children about whole lives of an object.
-- - JniManager.antt: the native methods of JNI/c/ARNETWORKAL_JNIManager.c; JniManager/Life.antt has
--   the BLE network's initialisation with its close.
-- - Errors/Text.antt: the errors' numbers, and ToString of gen/Sources/ARNETWORKAL_Error.c.
-- - Prelude.antt: lists, integers, words, tests and monitors of events that all share; Tests.antt: concrete runs.
--
-- How it is modelled. A function of the code is a function from the manager and from what the
-- system answers (queries, socket calls, dates, allocations) to the result, the new manager and
-- the events: dumps, datagrams, reads of the pipe, releases of buffers, calls of the
-- disconnection callback. `none` is undefined behaviour: a NULL object followed, an access outside
-- an allocation, FD_SET of a negative descriptor. Addresses are flat numbers of 64 bits, uint32_t
-- and size_t wrap around, and a buffer is the list of its bytes. IP_MAXPACKET, the conversions of libARSAL and its
-- difference of dates are fields of `Platform`, with what is used of them in `IsPlatform`.
-- A flush runs over the finite list of datagrams that the socket holds. `drain` pops with fuel,
-- which is enough where it exceeds the number of frames.
--
-- Java references are numbers, and a call of the JNI takes what GetEnv, AttachCurrentThread and each
-- Java method return as arguments; each gives the events that the virtual machine sees.
-- `pop_until` pops with fuel in the same way: each network bounds the frames that wait, and one more
-- call is enough. `pop_all` does so on the WiFi network: a call that returns DEFAULT takes a byte at least unless the head
-- holds a size of 0, so that one more than the number of unread bytes is enough where none does.
--
-- Assumptions: a call is not interleaved with another on the same object, but for BandwidthThread and
-- Delete in Wifi/Closing.antt, where a step of the code's is one turn; the callback does not
-- change the manager, and the receiver's buffer lies above the first 4 GiB, as on a machine of 64
-- bits; below, the subtractions on pointers in PopFrame can wrap around.
--
-- Not modelled: the prints, the options of sockets that no later call reads, Java exceptions, and
-- what libARSAL's, libpomp's and libmux's functions do besides what they return. The Java classes are
-- another language's end of the JNI, seen through what their methods return. When a released object of
-- Objective-C is deallocated is left open behind the release of the manager's two references to it, and
-- an exception of its collections is undefined behaviour; CancelBLENetwork and CloseBLENetwork of the manager take
-- what the BLE network's functions return as arguments.
pub mod Prelude
pub mod Platform
pub mod Frame
pub mod Errors
pub mod Wifi
pub mod Manager
pub mod JniBle
pub mod JniManager
pub mod Mux
pub mod Ble
mod Tests
