-- ===== src/Rpc.antt =====
-- src/rpc/pbc: the remote calls over protobuf messages. `Wire` is the framing that both sides
-- share, `Buffer` what they use of libevent, `Callouts` and `Server` the service, `Client` the caller.
pub mod Wire
pub mod Buffer
pub mod Frames
pub mod Assembly
pub mod Callouts
pub mod Registry
pub mod Keys
pub mod Table
pub mod Server
pub mod Dispatch
pub mod Reading
pub mod Session
pub mod Serving
pub mod Served
pub mod Client
pub mod Connect
pub mod Ids
pub mod Pending
pub mod Told
pub mod Calls
pub mod RoundTrip
pub mod Duplex
pub mod Tests
