-- ===== src/Connection.antt =====
-- SOLNS/HW10/connection.c: a server and a client on a stream socket, with counted messages.
pub mod Io
pub mod Platform
pub mod Server
pub mod Client
pub mod Delivery
pub mod Reception
pub mod Buffering
mod Filling
mod Rounds
pub mod RoundTrip
pub mod Tests
