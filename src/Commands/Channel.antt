-- ===== src/Commands/Channel.antt =====
-- src/commands/channel.rs: the channel that commands come through, which is unbounded.
use tewta.Base.{Bool, false, List, [], ◌∷◌, ◌++◌, if◌then◌else◌}
use tewta.Commands.{Command}

-- The receiver's view: the commands that wait, and if every sender is dropped.
pub record CommandReceiver : Type 0 where
  pub queue : List Command
  pub senders_dropped : Bool

abbrev pub new : CommandReceiver
new = record { queue = []; senders_dropped = false }

-- `Sender::send`: it does not fail, since the receiver is there.
unfoldable pub send : Command → CommandReceiver → CommandReceiver
send c self = record self { queue = self.queue ++ c ∷ [] }

-- A wait ends with a command, or goes on, or ends in the panic of `unwrap`.
pub data Wait : Type 0 where
  received : Command → CommandReceiver → Wait
  waiting : Wait
  panicked : Wait

abbrev next : List Command → CommandReceiver → Wait
next [] self = if self.senders_dropped then panicked else waiting
next (c ∷ queue) self = received c (record self { queue = queue })

unfoldable pub wait_command : CommandReceiver → Wait
wait_command self = next self.queue self
