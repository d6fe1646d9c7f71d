-- ===== src/Lib.antt =====
-- rpcmple: remote procedure calls and published data between two processes (the C++ headers under
-- rpcmple_cpp/include).
--
-- The program. Values travel as `variant`s, and a `dataSignature`, a string of type characters, says
-- how they are put into bytes and taken out (`toBinary`, `fromBinary`, rpcmple/dataSignature.h), with
-- the byte conversions of rpcmple/rpcmple.h. A `messageManager` (rpcmple/messageManager.h) owns a
-- connection (connectionmanager/base.h) and runs `dataFlow`: it reads, cuts the stream into messages of
-- the length that its virtual `getMessageLen` asks for, hands each to `parseMessage`, and writes what
-- `writeMessage` gives. rpcServer, rpcClient, dataPublisher and dataSubscriber are the four managers.
-- Each message is four bytes of header and a body.
--
-- The files.
--   Common: shared names; lists, memory and the outcomes of a call. `ok` is a return, `refused` is
--     `return false` with what the caller can see, `thrown` an exception, `fault` undefined behaviour.
--   Bits, Endian: rpcmple.h. `swapEndian64` is `swap_endian64`, `uint32ToBytes` is `uint32_to_bytes`, and
--     so on; the first argument of a conversion says whether the machine is little endian.
--   Variant: the type `variant` and `getVariantValue`.
--   Signature: `toBinary` is `Writer.to_binary`, `fromBinary` is `Reader.from_binary`, one function for
--     each case of their switches; `Wire` is the format on its own.
--   Manager: messageManager.h. `Parser` holds the virtual methods, `Connection` those of the connection;
--     `DataFlow.data_flow` is `dataFlow`, `consume` its inner loop. `Stream` is the same byte by byte,
--     `Inbox` a connection whose reads are given beforehand; `Simulation`, `Consumed` and `Replaced` put one
--     connection in the place of another; `Handled` is what the loop does of a message of two parts.
--   Header, Server, Client, Publisher, Subscriber: rpcServer.h, rpcClient.h, dataPublisher.h and
--     dataSubscriber.h, each state as a record, each method a function of it. The methods that wait on a
--     condition variable are cut at the wait: a Boolean function for the condition (`may_call`,
--     `may_send`, `has_reply`, `may_write`) and a function for what follows it under the lock. The data flow
--     of a client that is at its wait for a call (`awaits_call`) goes no further: there `write_message` is `refused`.
--   Client.Remote: a call from `callSync` to its return, with the data flows of the client and the server.
--   Publisher.Steps, Client.Steps: the steps that threads and the data flow take at the locks, as a
--     relation on states. The publisher may have any number of publishing threads, the client one caller.
--     `publish` is two steps, `prepare` outside the lock and `push` under it. The converter of wide strings,
--     which calls of `toBinary` at a time share, is taken to convert each string on its own.
--   Connections: connectionmanager/tcpSocketClient.h is `TcpClient`, tcpSocketServer.h `TcpServer`,
--     udpSocket.h `Udp`, namedPipeClient.h `NamedPipe` and stdInOutClient.h `StdInOut`; a method is a
--     function of the object and the system. `Audit` is the system with an account of what is held.
--     `Link` is what a connection makes of a connected socket; `ClientLink` and `ServerLink` are the two
--     classes of TCP as the connection of a manager, and `Server.OverTcp` the server on such a one;
--     `UdpLink` and `Subscriber.OverUdp` are the same for a subscriber over UDP.
--   Examples: rpcmple_cpp/src_examples. `First` is example1.cpp; `Examples` has the procedures of
--     example4RPCServerOverTCP.cpp and the calls of example4RPCClientOverTCP.cpp.
--   Tests: concrete runs.
--
-- Numbers. Words are natural numbers below their bound, with the wrap-around of shifts and of the header
-- written out; a `double` and an `int64_t` are their 64-bit patterns. Offsets and sizes of vectors are
-- taken not to overflow an `int`, as in messages below 2 GB.
--
-- Fuel. `consume` has one unit for each byte of a read: every round takes one byte at least. `loop` has
-- one test for each entry of a schedule that says whether a stop was asked for by then; over a connection
-- with n reads n + 1 entries reach the end. `send_all` and `write_whole` have a round for each byte to
-- write: a call of the system takes one byte at least.
--
-- Parameters. The conversion of wide strings is the standard library's (`Codec`, with `IsUtf8` for
-- what is documented of it); procedures, callbacks and connections are the user's. The calls of the
-- operating system are `Os` (WinSock), `Files` and `Streams`, over any state of the system; `IsSend`
-- and `IsInput` are what is documented of them, `IsConnected` what a connected socket does whose peer
-- stays until it closes, and `IsReceiving` what `recvfrom` does on a socket to which datagrams come.
--
-- Not modelled. Log lines (spdlog is a copy of another library), threads other than through the schedule,
-- the waits and the steps, the other examples, and the implementation in Go.
pub mod Common
pub mod Bits
pub mod Endian
pub mod Variant
pub mod Signature
pub mod Manager
pub mod Header
pub mod Server
pub mod Publisher
pub mod Subscriber
pub mod Client
pub mod Connections
pub mod Examples
pub mod Tests
