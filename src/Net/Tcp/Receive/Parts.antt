-- ===== src/Net/Tcp/Receive/Parts.antt =====
-- A part of a handler goes on with a socket, or returns from the whole handler.
use aexkernel.Net.Tcp.{Socket}

pub data Flow : Type 0 where
  next : Socket → Flow
  return : Socket → Flow

infixl 5 ◌>>=◌
abbrev pub ◌>>=◌ : Flow → (Socket → Flow) → Flow
next s >>= f = f s
return s >>= f = return s

abbrev pub result : Flow → Socket
result (next s) = s
result (return s) = s
