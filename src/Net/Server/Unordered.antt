-- ===== src/Net/Server/Unordered.antt =====
-- `sessions_` of include/sephi/net/tcp/server/server.h is a `std::unordered_map`: the order in which
-- its entries come is not specified. What the server does must not depend on it.
mod Entries
mod Operations
pub mod Runs
mod Examples
use mathlib.Core.List.{Permᴰ}
use sephi.Base.{◌≡◌, List, false}
use sephi.Net.Types.{ConnectionState, ErrorCode, is_error}
use sephi.Net.SessionMap.{SessionId, SessionPtr, SessionMap}
use sephi.Net.Server.{Server, Input, closes, stops}

-- The server with the entries of its map, and its calls of the connection handler, in another order.
abbrev pub reorder : SessionMap → List (SessionId × ConnectionState × ErrorCode) → Server → Server
reorder m calls server = record server { sessions = m; connection_calls = calls }

-- `t` is `server` up to the order.
pub record Reorders (server t : Server) : Type 0 where
  pub entries : SessionMap
  pub calls : List (SessionId × ConnectionState × ErrorCode)
  pub same : t ≡ reorder entries calls server
  pub order : Permᴰ server.sessions entries
  pub told : Permᴰ server.connection_calls calls

-- No shutdown throws in `close`: which sessions it has closed by then would depend on the order.
abbrev pub ClosesWell : Input → Type 0
ClosesWell (closes errors) = (p : SessionPtr) → is_error (errors p) ≡ false
ClosesWell (stops errors) = (p : SessionPtr) → is_error (errors p) ≡ false
ClosesWell _ = Unit
