-- ===== src/Lib.antt =====
-- libfabric-go: Go bindings for libfabric (internal/capi), a package of low-level primitives over them
-- (fi), and a high-level client (client).
--
-- The parts and how they interact. internal/capi turns the statuses of the C library into errors,
-- checks versions, and wraps lists of fi_info, queues, endpoints and address vectors, over which fi/discover.go,
-- fi/endpoint.go, fi/passive.go and fi/address_vector.go make the values that a client uses. fi/context.go
-- keeps completion contexts in a registry under their C pointer; every post of fi/messaging.go, fi/tagged.go and fi/rma.go takes a new context or the caller's, puts a copy of the
-- data into the context's buffer or uses a region of fi/memory.go, and gives the context's pointer to the
-- provider, whose completion resolves it. fi/memory_pool.go lends registered regions. client/client.go,
-- client/connect.go and client/listener.go open the resources of a client and close them; client/client.go
-- also prepares and posts the requests of a client, and its dispatcher reads the completion queue and
-- completes the operations behind the futures.
--
-- The files, and what they model:
-- Capi/Errors.antt: internal/capi/errors.go, with the error values of fi/errors.go and the
--   OperationError of client/client.go. A Go error is a value of GoError, nil is none.
-- Capi/Version.antt: internal/capi/version.go.
-- Capi/Info.antt and Capi/Info/: internal/capi/info.go, over a memory of the C library that is a function
--   from addresses to nodes (Read: the accessors; Chains: the lists that Entries walks).
-- Capi/Handle.antt, Capi/Queue.antt, Capi/Name.antt: internal/capi/endpoint.go: opening, binding and closing
--   handles, reading queues, the name of an endpoint. Capi/Vector.antt: internal/capi/av.go.
-- Capi/Calls.antt: the posting calls, Accept and Connect of internal/capi/endpoint.go, tagged.go and rma.go.
-- Capi/Fabric.antt: internal/capi/fabric.go, wait.go, memory.go and context.go.
-- Capi/Region.antt and Capi/Region/: internal/capi/mr.go.
-- Fi/Discover.antt and Fi/Discover/: fi/discover.go (Filters: the hints; Manual: what the C library documents
--   of its memory; Leakless: Discover).
-- Fi/Open.antt and Fi/Open/: the capability tests of fi/discover.go, and opening, binding and connecting in
--   fi/discover.go, fi/endpoint.go and fi/passive.go.
-- Fi/Queue.antt and Fi/Queue/: the reads and closes of fi/endpoint.go and the events of fi/passive.go.
-- Fi/Vector.antt and Fi/Vector/: fi/address_vector.go, and RegisterAddress of fi/endpoint.go.
-- Fi/Context.antt and Fi/Context/: fi/context.go. A state is a Runtime: the registry, the contexts by
--   number, and a log of what ran, was copied or was freed. CompletionContext.release is release_with.
-- Fi/Memory.antt and Fi/Memory/: fi/memory.go, with Domain.RequiresMRMode of fi/discover.go. A state is
--   a Memory: the regions by number, and a log.
-- Fi/Pool.antt and Fi/Pool/: fi/memory_pool.go. The channel of regions is a list with a capacity.
-- Fi/Post.antt and Fi/Post/: the posts of fi/messaging.go (Message), fi/tagged.go (Tagged) and fi/rma.go
--   (Rma). The branches that these share in the source are stage_out, stage_in and submit. Passed
--   joins them to the calls of Capi/Calls.antt; Values and Invariant are about the contexts behind a post.
-- Fi/Wait.antt and Fi/Wait/: waitForCompletion of fi/wait.go, over a list of what its rounds find;
--   the calls that post and wait (Sync), and the wait sets (Sets).
-- Client/Setup.antt and Client/Setup/: Dial and Close of client/client.go (Dial), client/connect.go
--   (Connect), and Listen, Close and handleConnReq of client/listener.go (Listener), as programs of a monad
--   that logs what is opened and on what Close is called (the answer to a close is dropped, as in the source;
--   Leaks has the rules, with a strict reading in which no close may come while an open resource rests on its
--   own); the event loops of client/listener.go (Accept).
-- Client/Operation.antt and Client/Operation/: the operation behind a future, of client/client.go, with
--   complete, addCallback and Await.
-- Client/Dispatch.antt and Client/Dispatch/: handleCompletion of client/client.go over the registry of
--   contexts, and the SetValue behind a post as a step of its own.
-- Client/Prepare.antt and Client/Prepare/: prepareSend and prepareReceive of client/client.go.
-- Client/Session.antt and Client/Session/: the calls of a client that is set up, over a Session, which holds
--   the states of the parts above: sendAsync and ReceiveAsync (Async), the dispatcher (Dispatcher), the peers
--   (Peers), the calls that wait, with their deadlines (Blocking), and what these calls leave lent by the pool
--   (Lending, Lifecycle, Agree), recorded (Poison) or report when a send is done (Completion), and the
--   statistics over any history of a client (Ledger).
-- Client/Emit.antt and Client/Emit/: the handlers, the statistics and emit of client/client.go.
-- Client/Telemetry.antt and Client/Telemetry/: what the dispatcher of client/client.go tells a logger, a span and
--   a metric hook, over the rounds of Client/Session/Dispatcher.antt (Rounds), against the statistics
--   (Agree, Counted), from the start of a client (Attached, Attaches, Holds, Calls, Reached).
-- Client/Metrics.antt and Client/Metrics/: the hooks of client/metrics_prometheus.go and client/metrics_otel.go.
-- Base.antt and Base/: Boolean tests, lists, association lists, integers and bits.
--
-- The numbers: pointers, handles, addresses and flags are natural numbers, nil is 0; a Go int is an integer
-- of Base/Int.antt; the conversion of a status to the 32 bits of an Errno, of an unsigned 64-bit size to an
-- int, and the 64-bit sum of segment lengths are written out with their wrap-around. The loops recur on the
-- list that they walk, but for two on fuel: Endpoint.Name with its six attempts, and the walk of Entries over
-- linked nodes, for which 2^64 rounds are enough, the number of addresses. A loop that waits
-- (waitForCompletion, waitForConnected, Accept) walks a list of rounds of any length, and is still waiting at its end.
--
-- What the C library answers (an allocation, a posting call, a close, the descriptors that it finds) is
-- an argument of the definitions. Methods that a mutex or an atomic guards are one step each (complete is two, one under
-- its mutex and one behind it), and so are the calls of a client in Client/Session; MRPool.Release
-- is also modelled as its two halves. Callbacks do not re-enter the context that runs them.
--
-- Not modelled: the bytes of the buffers; the debug lines of logf; NewOTelMetrics and the names of counters, which
-- are third-party calls; the attributes that the opening calls copy to C; the getters and FormatInfo; the tag and
-- data that TaggedRecvSync returns; a nil client. In Client/Setup.antt the refusals of the opening calls are
-- answers; whether the C library carries out a close is not modelled there. A failed calloc of an attribute in internal/capi/info.go is not modelled, a failed fi_allocinfo is.
-- The programs under examples/ only show the use of the packages.
pub mod Base
pub mod Capi
pub mod Fi
pub mod Client
