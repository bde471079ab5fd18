-- ===== src/Transport/Streams/Examples.antt =====
-- A stream on which two messages are written, and that is closed twice.
use fproto.Base.{true, List, [], ◌∷◌}
use fproto.Transport.Streams.{Call, drained, write, close, run}
use fproto.Transport.Streams.Order.{Inv, opened, run-opened-Inv}

abbrev two_writes : List Call
two_writes = write true (1 ∷ []) ∷ write true (2 ∷ []) ∷ drained true ∷ close ∷ close ∷ []

run-opened-Inv_example : Inv (run two_writes opened)
run-opened-Inv_example = run-opened-Inv two_writes
