-- ===== src/Node/History/Runs.antt =====
-- Runs of the tasks of a node of src/node.
use Prim.Native.String.{String}
use tewta.Node.Dispatch.{Node}
use tewta.Node.History
