-- ===== src/Net/Types.antt =====
-- include/sephi/net/types/types.h and remote.h: the types that the endpoints share.
use sephi.Base.{ℕ, ◌≡◌, List, ◌++◌, Bool, not, ◌==◌, Option}
use mathlib.Core.Option
use sephi.Base.{length, take, drop, replicate}
use sephi.Base.{take-append}

-- A byte is a number below 256.
abbrev pub Chunk : Type 0
Chunk = List ℕ

abbrev pub PacketBuffer : Type 0
PacketBuffer = List ℕ

abbrev pub max_buffer_size : ℕ
max_buffer_size = 4096

-- `PacketBuffer received{}` is zero-initialised.
abbrev pub zero_buffer : PacketBuffer
zero_buffer = replicate max_buffer_size 0

pub data ConnectionState : Type 0 where
  disconnected connected : ConnectionState

-- The value of a `std::error_code`; 0 is success.
abbrev pub ErrorCode : Type 0
ErrorCode = ℕ

abbrev pub success : ErrorCode
success = 0

-- `if (ec)`
abbrev pub is_error : ErrorCode → Bool
is_error ec = not (ec == 0)

pub record Remote (Address : Type 0) : Type 0 where
  pub address : Address
  pub port : ℕ

-- `endpoint_{make_address(remote.address()), remote.port()}`. `make_address` is asio's, a parameter
-- here: `none` is the exception that it throws on a text which is no address.
pub record Endpoint (Ip : Type 0) : Type 0 where
  pub ip : Ip
  pub port : ℕ

abbrev pub endpoint_of :
    {Address Ip : Type 0} → (Address → Option Ip) → Remote Address → Option (Endpoint Ip)
endpoint_of make_address r =
    Option.map (λ ip. record { ip = ip; port = r.port }) (make_address r.address)

-- Whether a runner thread runs handlers. An exception that leaves a handler leaves
-- `io_context_.run()` and the thread, and so ends the process.
pub data Runner : Type 0 where
  running stopped terminated : Runner

-- What a read leaves in the buffer: the received bytes, then what stood there before.
abbrev pub fill : Chunk → PacketBuffer → PacketBuffer
fill bytes buffer = bytes ++ drop (length bytes) buffer

-- A handler that is given the buffer and the size sees the received bytes.
pub take-fill :
    (bytes : Chunk) (buffer : PacketBuffer) → take (length bytes) (fill bytes buffer) ≡ bytes
take-fill bytes buffer = take-append bytes (drop (length bytes) buffer)
