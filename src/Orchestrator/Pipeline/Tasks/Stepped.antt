-- ===== src/Orchestrator/Pipeline/Tasks/Stepped.antt =====
-- The state after a step of one task, and what of the invariant such a step leaves alone.
use distributed_donut.Prelude.{ℕ, ◌+◌, ◌*◌, ◌≤◌, ◌<◌, ◌≡◌, ◌≢◌, refl, ap, subst, List, inr}
use distributed_donut.Protocol.{batch_size}
use distributed_donut.Buffer.{FrameBuffer}
use distributed_donut.Client.{Client}
use distributed_donut.Orchestrator.BatchMap.{FrameBatchMap}
use distributed_donut.Orchestrator.Pipeline.{Pipeline, Task, numbered, running, update}
use distributed_donut.Orchestrator.Pipeline.Invariant.{Owns, TaskOk, Common, Round, Inv}
use distributed_donut.Orchestrator.Pipeline.Framing.{Round-update, BroadcasterOk-buffer}
use distributed_donut.Orchestrator.Pipeline.Tables.{Common-clients}

module _ (worker : ℕ → List ℕ → Type 0) (s : Pipeline) (v : Inv worker s) (n current : ℕ)
    (tasks : ℕ → Task) (ran : s.dispatcher ≡ running n current tasks) (j : ℕ) (lt : j < n) where
  pub round : Round worker s.batch_map s.clients n current tasks
  round = rw ran at v.dispatching

  abbrev pub slot : ℕ
  slot = s.batch_map.buffer.head + j * batch_size

  pub held : (task : Task) → tasks j ≡ task → TaskOk worker s.batch_map s.clients slot task
  held task e = subst (TaskOk worker s.batch_map s.clients slot) e (round.agree j lt)

  abbrev pub stepped : FrameBatchMap → (ℕ → Client) → ℕ → Task → Pipeline
  stepped bm clients m next = record s {
    batch_map = bm;
    clients = clients;
    next_channel = m;
    dispatcher = running n current (update tasks j next);
  }

  pub stepped-Inv :
      (bm : FrameBatchMap) (clients : ℕ → Client) (m : ℕ) (next : Task)
      → bm.buffer ≡ s.batch_map.buffer
      → Common worker bm clients m
      → Round worker bm clients n current (update tasks j next)
      → Inv worker (stepped bm clients m next)
  stepped-Inv bm clients m next same c r = record {
    common = c;
    dispatching = r;
    broadcasting =
        BroadcasterOk-buffer worker s.batch_map bm s.clients clients s.stream s.broadcaster
          (ap FrameBuffer.head same) (ap FrameBuffer.tail same) v.broadcasting;
    played = v.played;
  }

  -- A step that leaves the batch map alone.
  pub calm :
      (clients : ℕ → Client) (next : Task)
      → ((i : ℕ) → (clients i).id ≡ (s.clients i).id)
      → ((i : ℕ) → (s.clients i).num_render_tasks ≤ (clients i).num_render_tasks)
      → TaskOk worker s.batch_map clients slot next
      → ((c t : ℕ) → Owns (tasks j) c t → Owns next c t)
      → ((w id : ℕ) → next ≡ numbered w id → (i : ℕ) → i < n → i ≢ j → tasks i ≢ numbered w id)
      → Inv worker (stepped s.batch_map clients s.next_channel next)
  calm clients next same more o kept fresh =
      stepped-Inv s.batch_map clients s.next_channel next refl
        (Common-clients worker s.batch_map s.clients clients s.next_channel same more v.common)
        (Round-update worker s.batch_map s.batch_map s.clients clients n current j tasks next round
          refl more lt o (λ i below ne. (λ w id e free. free, λ c t meta o' e first. e))
          (λ c t meta e. inr (meta, e, kept c t)) fresh)
