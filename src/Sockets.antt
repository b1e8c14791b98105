-- ===== src/Sockets.antt =====
-- The two registries of web sockets: server/websocket.py and the ConfigWebSocketHub of
-- server/routes/config.py. A socket is a number, since they are told apart by identity.
pub mod Hub
pub mod Manager
mod Tests
use topology_maps.Prelude.{ℕ, Bool, List, [], ◌∷◌, if◌then◌else◌}

-- A message that was sent, and whether `send` raised.
pub record Sending : Type 0 where
  pub socket : ℕ
  pub refused : Bool

abbrev pub sockets : List Sending → List ℕ
sockets [] = []
sockets (m ∷ log) = m.socket ∷ sockets log

-- The list `dead`, or `disconnected`, after the loop.
unfoldable pub dead : List Sending → List ℕ
dead [] = []
dead (m ∷ log) = let rest = dead log in if m.refused then m.socket ∷ rest else rest
