-- ===== src/Memoria/Connection/Ends.antt =====
-- The loop of process_request ends: each of its rounds takes a byte at least.
use so_distribuido.Base.{ℕ, ◌≤◌, ◌<◌, length}
use so_distribuido.Memoria.Connection.{Received, disconnected, undefined, a_request, unserved}

-- What a round leaves for the next one.
unfoldable pub Within : ℕ → Received → Type 0
Within n disconnected = Unit
Within n undefined = Unit
Within n (unserved rest) = length rest ≤ n
Within n (a_request q rest) = length rest ≤ n

-- What a round leaves is shorter than what it found.
Shorter : ℕ → Received → Type 0
Shorter n disconnected = Unit
Shorter n undefined = Unit
Shorter n (unserved rest) = length rest < n
Shorter n (a_request q rest) = length rest < n
