-- ===== src/Lib.antt =====
-- php-ion: the asynchronous PHP extension ION, its C code under src/.
--
-- Parts that are modelled, and their files:
--
-- - Memory: `memcpy` into a block of bytes at a position, as src/classes/ION/URI.c writes strings. A
--   write outside of the block is `none`.
-- - Uri: `struct _ion_uri` of src/ion/ion_http.h and the accessors of src/classes/ION/URI.c.
--   Uri/Text is ion_uri_stringify, __toString and getAuthority: a pass that computes the length, the
--   allocation, and a pass that writes. Uri/Text/Render says which text that is. Uri/Parse is
--   ion_uri_parse and getUserInfo, Uri/Factory is URI::factory. Uri/Access relates the accessors.
-- - Promisor: src/ion/ion_promisor.c and src/ion/ion_promisor.h. Promisor/State is the data: a promisor
--   is a number, and the world has all promisors and the pending exception. Promisor/Exec are actions
--   on that world; a failed assertion, a NULL or wild pointer and a write outside of an array are
--   `fault`. Promisor/Handlers is the array of handlers, Promisor/Clone is ion_promisor_clone,
--   Promisor/Resolve is ion_promisor_resolve, Promisor/Create makes promisors and their callbacks, and
--   Promisor/Outcome are the functions that settle a promisor. Promisor/Methods are the PHP methods of
--   src/classes/ION/Promise.c, ResolvablePromise.c, Deferred.c and Sequence.c, which call them.
-- - Http: Http/Message is the headers, the version and the body of a message,
--   src/classes/ION/HTTP/Message.c; Http/Message/Stored says what a value adds to a header, and
--   Http/Message/Lookup what is found after each method. Http/Parser are the callbacks of
--   src/ion/ion_http.c that fill a message; what http_parser makes of a text comes as a list of
--   events. Http/Factory, Http/Request and Http/Response are the methods and factories of Request.c and
--   Response.c beside it. Http/Build is
--   pion_http_message_build: Http/Build/Pieces gathers the strings of a message in an array,
--   Http/Build/Written writes them, and Http/Build/Rendered and Texts say what text is meant.
--   Http/WebSocket/Frame is HTTP/WebSocket/Frame.c, Http/WebSocket/Parser is HTTP/WebSocketParser.c.
-- - DeferredQueue: the queue of callbacks of src/ion/ion_deferred_queue.c, with the growth of its array.
-- - Stream: src/classes/ION/Stream.c and src/ion/ion_stream.c, a stream with its buffers, its token and
--   its promises. Stream/Search is the search for a token and the reading at its place, with what
--   libevent does as the parameter Evbuffer and its laws in Stream/Search/Laws. Stream/Create makes
--   streams and asks for their state, Stream/Events are the callbacks of libevent, and Stream/Methods
--   the PHP methods. Stream/Lines, Stream/Chunks, Stream/Closing and Stream/Pairs say what these do.
--   Stream/Steps runs them in any order, and Stream/Coherent has what each of them keeps.
-- - Process: src/classes/ION/Process.c, Process/ChildProcess.c and Process/IPC.c below it, and
--   src/ion/ion_process.c. Process/Objects is the data with both tables of running processes, Child,
--   Spawn, Exec and Reap are their life, Ops runs all of it in any order, and Tracked is what stays
--   true of the tables. Process/Ipc are the messages between processes, which websocket_parser cuts
--   into frames; its calls are a list of events. Process/Signals and Process/Calls are the other
--   methods, on the answers of the system.
-- - Loop: src/classes/ION.c, dispatch() and the timers with their table of names. Loop/Timers is what
--   interval() and cancelInterval() do.
-- - Examples: the models on concrete inputs.
--
-- How they meet: a PHP method of a promise class works on one promisor and reaches others through
-- `await` and `handlers`, so all of them share one world. The PHP functions, generators and C callbacks
-- that a promisor calls run any code: they are the interface Php of Promisor/State, functions that
-- return a value and a new world. The results that need it assume PhpKeeps of Promisor/Keeps: such code
-- keeps what is settled. Code of PHP itself (php_url_parse_ex, strpprintf, convert_to_string,
-- zend_string_tolower, implode, the allocator) is a parameter of the definitions that use it.
--
-- Fuel: ion_promisor_resolve and ion_promisor_clone call themselves and have loops by `goto`, so the
-- actions take a number that bounds the depth of the calls and the rounds of each loop, and give
-- `no_fuel` when it runs out. A chain of n handlers needs n + 2 of it, as the results on chains say.
-- Where PHP code can go on for ever (a generator that never ends), no fuel is enough.
--
-- The run of the deferred queue takes one more than the number of its entries, those that callbacks add
-- and those behind an exception included. Repeated getLine() takes one
-- more than the bytes of the input.
--
-- A stream does not see the promisors: its promises are numbers, and answering one runs its destructor,
-- which takes it out of the stream, and then any code (`react` of Stream.Env).
--
-- Numbers: a port is 16 bits and handler counts are 16 bits, with the wrap-around written out; a
-- PHP integer is a natural number here, as no modelled code computes with a negative one; priorities,
-- which may be negative, have a type of their own.
--
-- Not modelled: reference counts and the release of memory; the parsing of PHP arguments; listeners,
-- events, the file system, DNS and cryptography, which are calls of libevent, OpenSSL and the operating
-- system; websocket_parser itself.
mod Base
pub mod Memory
pub mod Uri
pub mod Promisor
pub mod Http
pub mod DeferredQueue
pub mod Stream
pub mod Process
pub mod Loop
pub mod Examples
