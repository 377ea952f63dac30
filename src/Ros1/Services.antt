-- ===== src/Ros1/Services.antt =====
-- Service calls over TCPROS: `ServiceServerLink` of roslibrust_ros1/src/service_server.rs and
-- `ServiceClientLink` of roslibrust_ros1/src/service_client.rs, on one connection.
pub mod Server
pub mod Client
pub mod Contract
pub mod Serving
pub mod Calling
pub mod Ending
pub mod Typed
mod Tests
use roslibrust.Base.{ℕ, suc, zero, Option, none, some, List, ◌++◌}

-- The writing end of a socket: the bytes written so far, and how many more calls of `write_all`
-- succeed before the other side is gone.
pub record Outgoing : Type 0 where
  pub written : List ℕ
  pub room : ℕ

unfoldable pub write_all : List ℕ → Outgoing → Option Outgoing
write_all bytes out = elim out.room [
  | zero ↦ none
  | suc room ↦ some (record { written = out.written ++ bytes; room = room })
]
