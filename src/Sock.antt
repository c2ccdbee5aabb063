-- ===== src/Sock.antt =====
-- src/sock.hxx and src/sock.cxx: TCP sockets and their connections on a libev loop. libev's I/O
-- watchers are a parameter, and so is the client code behind the callbacks; what the system calls
-- return is an argument of the operation that makes them.
pub mod State
pub mod Kernel
pub mod Conn
pub mod Write
pub mod Read
pub mod Tcp
pub mod Access
pub mod Sending
pub mod Backlog
pub mod Resuming
pub mod Reading
pub mod Serving
pub mod Accepting
pub mod Ending
pub mod Connecting
pub mod Sample
mod Examples
mod SocketExamples
