-- ===== src/Logging.antt =====
-- src/logging.rs: the level of a node, and the macros that log from a level on. The atomic byte is
-- shared by the node and its pool.
use tewta.Base.{ℕ, Bool, leb}

pub record LogLevel : Type 0 where
  pub value : ℕ

abbrev pub from : ℕ → LogLevel
from value = record { value = value }

abbrev pub load : LogLevel → ℕ
load self = self.value

unfoldable pub set : ℕ → LogLevel → LogLevel
set value self = record { value = value }

pub data Macro : Type 0 where
  error warn info debug trace : Macro

abbrev pub threshold : Macro → ℕ
threshold error = 1
threshold warn = 2
threshold info = 3
threshold debug = 4
threshold trace = 5

-- If a call of the macro logs.
unfoldable pub logs : Macro → LogLevel → Bool
logs m i = leb (threshold m) (load i)
