-- ===== src/Lib.antt =====
-- The muduo network library (muduo/base and muduo/net): a model of its code, and theorems on it.
--
-- The parts, and the files that model them:
--
--   * Common: numbers, lists, the assertions as `Option`, and the whole numbers (Common.Int).
--   * Buffer (muduo/net/Buffer.h, Buffer.cc, Endian.h): the vector of bytes with its two indices.
--     `size_t` is a number below 2 ^ 64 with its wrap-around in `add_size` and `sub_size`; the
--     vector refuses to grow beyond `max_size`. Buffer.Valid states the invariant, Buffer.Space the
--     making of room, Buffer.Contents and Buffer.Calls the operations, Buffer.Ints the integers in
--     network order, Buffer.Search the searches, Buffer.ReadFd `readFd`, Buffer.Refine the calls of
--     a client against a queue of bytes.
--   * Date (muduo/base/Date.h, Date.cc): the Julian day numbers, with the arithmetic of `int`: an
--     overflow is no result. Date.Numbers has the numbers that do not overflow.
--   * Http (muduo/net/http/HttpRequest.h, HttpContext.h, HttpContext.cc): the request and the parser,
--     which reads from a Buffer. The loop of `parseRequest` runs on fuel; Http.Context.Termination
--     shows that the fuel, one more than the readable bytes, is enough in the states it may be
--     called in. Http.Context.Text is the parser on the contents alone.
--   * Channel (muduo/net/Channel.h, Channel.cc): the events of a file descriptor.
--   * Tcp (muduo/net/TcpConnection.h, TcpConnection.cc): a connection with its two buffers and its
--     channel. Callbacks of the user are recorded in the order in which they are called, functors
--     for the loop in the order in which they are queued, and the answers of the system calls are
--     arguments. Tcp.Lifecycle is about the states, Tcp.Output and Tcp.Stream about the bytes.
--   * Connector (muduo/net/Connector.h, Connector.cc): the attempts to connect. The loop is a queue
--     of functors and a list of timers. Connector.Sound, Connector.Calls and Connector.Sockets
--     are about the sockets and the channel, Connector.Backoff about the delay of the retries.
--   * Threads.Loops (muduo/net/EventLoopThreadPool.h, EventLoopThreadPool.cc), Threads.Queue
--     (muduo/base/BoundedBlockingQueue.h) and Threads.Workers (muduo/base/ThreadPool.h,
--     ThreadPool.cc): what the threads share. A step is what one thread does under the mutex.
--   * Loop (muduo/net/EventLoop.h, EventLoop.cc): the functors that wait in a loop and its wakeup;
--     Loop.Wakeup has the steps of all threads.
--   * Timers (muduo/net/TimerQueue.h, TimerQueue.cc, Timer.h, Timer.cc): Timers.Sets is `std::set`
--     of pairs, Timers.Queue the queue with the heap of its timers. Timers.Sound is the invariant,
--     with the timers that are out of the sets while they run; Timers.Erase, Timers.Calls,
--     Timers.Expiry, Timers.Reset and Timers.Round are about the operations, Timers.Delay about the alarm.
--   * Poller.EPoll (muduo/net/poller/EPollPoller.h, EPollPoller.cc, muduo/net/Poller.cc): the
--     descriptors that are watched. Poller.EPoll.Agree and Poller.EPoll.Watch are about the calls
--     of `epoll_ctl`, which are recorded, and Poller.EPoll.Poll about the events that are returned.
--   * TimeZone (muduo/base/TimeZone.h, TimeZone.cc): TimeZone.Clock is the calendar of a second,
--     TimeZone.Lookup the two searches and the conversions, which TimeZone.InForce and
--     TimeZone.RoundTrip are about; TimeZone.Moderate has the bounds on the data under which its
--     arithmetic on `int64_t` does not overflow; TimeZone.File is the reader of zone files over the
--     bytes of the file, TimeZone.File.Loaded and TimeZone.File.Total what it makes.
--   * LogStream (muduo/base/LogStream.h, LogStream.cc): the buffer of a log line. LogStream.Digits and
--     LogStream.Numbers are about numbers as text: 20 rounds are enough for 64 bits in decimal, 16 in
--     hexadecimal. LogStream.Stream is about a sequence of the operators `<<`.
--   * Protobuf (muduo/net/protobuf/ProtobufCodecLite.h, ProtobufCodecLite.cc): messages in frames, over
--     Buffer. Protobuf.Bodies and Protobuf.Frames are about `onMessage`, Protobuf.Fill about
--     `fillEmptyBuffer`; the library of Protocol Buffers and `adler32` are fields of a codec, and its
--     callbacks are recorded. The loop has a round for each readable byte and one more.
--   * Http.Response and Http.Server (muduo/net/http/HttpResponse.h, HttpResponse.cc, HttpServer.cc):
--     the text of a response, and the callbacks of the server over Http.Context.
-- A failed assertion is `none`, or `asserts` in the parser. Logging is left out everywhere, and so
-- are the parts that only call the system or another library.
-- In Date and TimeZone an `int` or `int64_t` is a whole number, and an operation that overflows has no
-- result, as has everything else there that C++ does not define, a binary search in transitions that
-- are out of order among it; `static_cast<int>` keeps its wrap-around.
-- The waiting sets of the conditions of BoundedBlockingQueue and ThreadPool are left out, and so is
-- their notification: the steps say what a thread does once it runs.
-- `shutdown` and the forced closes of a connection are steps of the loop's own thread in Tcp.Lifecycle:
-- called from another thread, their test of `state_` and the change of it are two steps of the code.
-- Not modelled: muduo/net/TcpServer, TcpClient, Acceptor, EventLoopThread, poller/PollPoller, protorpc,
-- and the back end of the log (muduo/base/AsyncLogging, LogFile).
pub mod Common
pub mod Buffer
pub mod Date
pub mod Http
pub mod Channel
pub mod Tcp
pub mod Connector
pub mod LogStream
pub mod Loop
pub mod Poller
pub mod Protobuf
pub mod Threads
pub mod TimeZone
pub mod Timers
