-- ===== src/Stream/Active/Follows.antt =====
-- The states of a producer's stream follow the diagram (src/dcp/stream.cc).
use ep_engine.Base.{◌≡◌, Option, arith}
use ep_engine.Stream.{State, Response}
use ep_engine.Stream.Active.{Active}
use ep_engine.Stream.Active.Diagram.{Route}
use ep_engine.Stream.Active.Phases.{note_sent}
use ep_engine.Stream.Active.Snapshots.{is_empty as is_empty_documents}

state-note_sent : {E : Type 0} (r : Response) (p : Active E) → (note_sent r p).state ≡ p.state
unfolding note_sent
state-note_sent r p = ground arith

module _ {E : Type 0} where
  -- Reached from the state `s` by the diagram.
  From : State → Active E → Type 0
  From s p = Route s p.state

  FromOut : State → Active E × Option Response → Type 0
  FromOut s out = Route s out.0.state
