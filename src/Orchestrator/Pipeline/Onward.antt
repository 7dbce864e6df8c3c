-- ===== src/Orchestrator/Pipeline/Onward.antt =====
-- How the loops go on to another broadcast from whatever they have come to.
pub mod Playing
mod Refilling
use distributed_donut.Prelude.{
  ◌-◌, sym, subst, length-append, length-take, take, ◌++◌, some, inl, inr, u32,
}
use distributed_donut.Buffer.{
  FrameBuffer, wait_until_buffer_size_enough_for_broadcast, get_next_frame_number,
}
use distributed_donut.Buffer.Ring.{contents}
use distributed_donut.Buffer.Ring.Read.{
  get_frames_to_broadcast_lem, remove_sent_frames_from_buffer_lem,
}
use distributed_donut.Client.{Client}
use distributed_donut.Orchestrator.Pipeline.{
  Pipeline, Dispatcher, admitted, running, Broadcaster, ready, copied, sent, Task, spawned,
}
use distributed_donut.Orchestrator.Pipeline.Steps.{Step, spawn, wake, copy_frames, send, remove}
use distributed_donut.Orchestrator.Pipeline.Invariant.{BroadcasterOk, DispatcherOk, Round}
use distributed_donut.Orchestrator.Pipeline.Progress.{Steps, Round-ends}
use distributed_donut.Orchestrator.Pipeline.Onward.Playing.{Played}
use distributed_donut.Orchestrator.Pipeline.Onward.Refilling.{Refilled}
