-- ===== src/Orchestrator/Pipeline/Onward/Refilling.antt =====
-- Runs of the dispatcher to its next wait, and what they bring into the ring.
use distributed_donut.Prelude.{
  ℕ, ◌+◌, ◌*◌, ◌≤◌, ◌<◌, ◌≡◌, ◌^◌, refl, ap, ◌∙◌, List, Bool-cases, inl, inr, true, Option, arith,
}
use distributed_donut.Protocol.{batch_size}
use distributed_donut.Buffer.{buffer_size}
use distributed_donut.Buffer.Floats.{Float64}
use distributed_donut.Client.Pool.{contains}
use distributed_donut.Orchestrator.{Config}
use distributed_donut.Orchestrator.Pipeline.{Pipeline, Dispatcher, parked, admitted, running, Task}
use distributed_donut.Orchestrator.Pipeline.Steps.{spawn, meet}
use distributed_donut.Orchestrator.Pipeline.Invariant.{Inv, Round}
use distributed_donut.Orchestrator.Pipeline.Progress.{
  IsIn, IsIn-wait, stay, go, Steps-trans, Answers, Steps-Inv, Round-ends,
}
use distributed_donut.Orchestrator.Pipeline.Onward.Playing.{Run}

module _ (fl : Float64) (prepare : List ℕ → Option (List ℕ)) (cfg : Config)
    (worker : ℕ → List ℕ → Type 0) (a : ℕ) (first_small : cfg.first_seconds_to_broadcast < 2 ^ 32)
    (small : cfg.seconds_to_broadcast < 2 ^ 32) where
  -- What a run of the dispatcher up to its next wait leaves to the broadcaster, after `n` more batches.
  pub record Refilled (s t : Pipeline) (n : ℕ) : Type 0 where
    pub run : Run fl prepare cfg worker a first_small small s t
    pub at_wait : t.dispatcher ≡ parked
    pub head : t.batch_map.buffer.head ≡ s.batch_map.buffer.head + n * batch_size
    pub tail : t.batch_map.buffer.tail ≡ s.batch_map.buffer.tail
    pub broadcaster : t.broadcaster ≡ s.broadcaster
    pub is_first_broadcast : t.is_first_broadcast ≡ s.is_first_broadcast
    pub stream : t.stream ≡ s.stream
    pub counted : (i : ℕ) → (t.clients i).num_render_tasks ≤ (s.clients i).num_render_tasks + 2 * n
    pub pool : t.pool ≡ s.pool

  -- No counter comes to its end while the ring is filled.
  pub record HasRoom (s : Pipeline) : Type 0 where
    pub tasks :
        (i : ℕ)
        → (s.clients i).num_render_tasks * batch_size + 2 * (s.batch_map.buffer.tail + buffer_size)
          < 2 ^ 32 * batch_size + 2 * s.batch_map.buffer.head
    pub member : IsIn fl prepare cfg worker a s
    pub far : s.batch_map.buffer.tail + buffer_size < 2 ^ 63

  pub Refilled-HasRoom : (s t : Pipeline) (n : ℕ) → Refilled s t n → HasRoom s → HasRoom t
  Refilled-HasRoom s t n r h = record {
    tasks = λ i. omega (arith, r.head, r.tail, r.counted i, h.tasks i);
    member = ap (λ (x : List ℕ). contains x a) r.pool ∙ h.member;
    far = omega (arith, r.tail, h.far);
  }

  module _ (answers : Answers fl prepare cfg worker a) where
    round_of :
        (s : Pipeline) (n current : ℕ) (tasks : ℕ → Task)
        → Inv worker s
        → s.dispatcher ≡ running n current tasks
        → HasRoom s
        → (t : Pipeline) × Refilled s t n
    round_of s n current tasks v ran h =
        let r : Round worker s.batch_map s.clients n current tasks = rw ran at v.dispatching in
        let (t, run, at_wait, head, tail, rest, first, stream, pool, counted) =
          Round-ends fl prepare cfg worker a first_small small s n current tasks v ran answers
            h.member (λ i. omega (arith, r.fits, h.tasks i)) (omega (arith, r.fits, h.far)) in
        (
          t,
          record {
            run = run;
            at_wait = at_wait;
            head = head;
            tail = tail;
            broadcaster = rest;
            is_first_broadcast = first;
            stream = stream;
            counted = counted;
            pool = pool;
          },
        )

    round_met :
        (s : Pipeline) (n : ℕ)
        → Inv worker s
        → s.dispatcher ≡ admitted n
        → s.dispatcher_met ≡ true
        → HasRoom s
        → (t : Pipeline) × Refilled s t n
    round_met s n v at met h =
        let first : Run fl prepare cfg worker a first_small small s _ = go stay (spawn at met) tt in
        let (t, r) =
          round_of _ n _ _ (Steps-Inv fl prepare cfg worker a first_small small v first) refl
            (record { tasks = h.tasks; member = h.member; far = h.far }) in
        (
          t,
          record {
            run = Steps-trans fl prepare cfg worker a first r.run;
            at_wait = r.at_wait;
            head = r.head;
            tail = r.tail;
            broadcaster = r.broadcaster;
            is_first_broadcast = r.is_first_broadcast;
            stream = r.stream;
            counted = r.counted;
            pool = r.pool;
          },
        )

    pub round_from :
        (s : Pipeline) (n : ℕ)
        → Inv worker s
        → s.dispatcher ≡ admitted n
        → HasRoom s
        → (t : Pipeline) × Refilled s t n
    round_from s n v at h = elim (Bool-cases s.dispatcher_met) [
      | inl met ↦ round_met s n v at met h
      | inr unmet ↦
          let first : Run fl prepare cfg worker a first_small small s _ =
            go stay (meet at unmet (IsIn-wait fl prepare cfg worker a s h.member)) tt in
          let (t, r) =
            round_met _ n (Steps-Inv fl prepare cfg worker a first_small small v first) at refl
              (record { tasks = h.tasks; member = h.member; far = h.far }) in
          (
            t,
            record {
              run = Steps-trans fl prepare cfg worker a first r.run;
              at_wait = r.at_wait;
              head = r.head;
              tail = r.tail;
              broadcaster = r.broadcaster;
              is_first_broadcast = r.is_first_broadcast;
              stream = r.stream;
              counted = r.counted;
              pool = r.pool;
            },
          )
    ]

    -- Wherever the dispatcher is, it comes to its next wait.
    pub to_parked :
        (s : Pipeline) (d : Dispatcher)
        → Inv worker s
        → s.dispatcher ≡ d
        → HasRoom s
        → (t : Pipeline) × (n : ℕ) × Refilled s t n
    to_parked s parked v at h = (
      s,
      0,
      record {
        run = stay;
        at_wait = at;
        head = omega arith;
        tail = refl;
        broadcaster = refl;
        is_first_broadcast = refl;
        stream = refl;
        counted = λ i. omega arith;
        pool = refl;
      },
    )
    to_parked s (admitted n) v at h = let (t, r) = round_from s n v at h in (t, n, r)
    to_parked s (running n current tasks) v at h =
        let (t, r) = round_of s n current tasks v at h in (t, n, r)
