-- ===== src/Orchestrator/Pipeline/Onward/Playing.antt =====
-- Runs of the broadcaster: it comes to rest, and with enough in the ring it sends.
use distributed_donut.Prelude.{
  ℕ, ◌+◌, ◌*◌, ◌≤◌, ◌<◌, ◌≡◌, ◌^◌, refl, ◌∙◌, List, length, length-append, take, Option, inl, inr,
  Bool-cases, false, arith,
}
use distributed_donut.Protocol.{batch_size}
use distributed_donut.Buffer.Floats.{Float64}
use distributed_donut.Buffer.Ring.{contents}
use distributed_donut.Buffer.Ring.Read.{
  get_frames_to_broadcast_lem, remove_sent_frames_from_buffer_lem,
}
use distributed_donut.Orchestrator.{Config}
use distributed_donut.Orchestrator.Pipeline.{Pipeline, Broadcaster, resting, ready, copied, sent}
use distributed_donut.Orchestrator.Pipeline.Steps.{
  wake, greet, copy_frames, send, remove, seconds_of,
}
use distributed_donut.Orchestrator.Pipeline.Invariant.{Inv, BroadcasterOk}
use distributed_donut.Orchestrator.Pipeline.Progress.{
  IsIn, IsIn-wait, Steps, stay, go, Steps-trans, Steps-Inv,
}
use distributed_donut.Orchestrator.Pipeline.Waking.{woken}

module _ (fl : Float64) (prepare : List ℕ → Option (List ℕ)) (cfg : Config)
    (worker : ℕ → List ℕ → Type 0) (a : ℕ) (first_small : cfg.first_seconds_to_broadcast < 2 ^ 32)
    (small : cfg.seconds_to_broadcast < 2 ^ 32) where
  abbrev pub Run : Pipeline → Pipeline → Type 0
  Run = Steps fl prepare cfg worker a

  -- What a run of the broadcaster alone leaves to the dispatcher, and what it adds to the stream.
  pub record Played (s t : Pipeline) (more : ℕ) : Type 0 where
    pub pool : t.pool ≡ s.pool
    pub run : Run s t
    pub dispatcher : t.dispatcher ≡ s.dispatcher
    pub clients : t.clients ≡ s.clients
    pub head : t.batch_map.buffer.head ≡ s.batch_map.buffer.head
    pub stream : length t.stream ≡ length s.stream + more

  -- From the frames that are copied the broadcaster comes back to rest.
  from_sent :
      (s : Pipeline) (k : ℕ)
      → Inv worker s
      → s.broadcaster ≡ sent k
      → (t : Pipeline) × (t.broadcaster ≡ resting) × Played s t 0
  from_sent s k v at =
      let (small_k, _, enough) : BroadcasterOk worker s.batch_map s.clients s.stream (sent k) =
        rw at at v.broadcasting in
      elim (remove_sent_frames_from_buffer_lem s.batch_map.buffer k v.common.ring small_k) [
        | inl (short, _) ↦ absurd (omega arith)
        | inr (fb, e, _, head, _, _) ↦ (
          _,
          refl,
          record {
            run = go stay (remove at e) tt;
            pool = refl;
            dispatcher = refl;
            clients = refl;
            head = head;
            stream = omega arith;
          },
        )
      ]

  from_copied :
      (s : Pipeline) (k : ℕ) (frames : List ℕ)
      → Inv worker s
      → s.broadcaster ≡ copied k frames
      → (t : Pipeline) × (t.broadcaster ≡ sent k) × Played s t (k * batch_size)
  from_copied s k frames v at =
      let (_, _, _, whole, _) : BroadcasterOk worker s.batch_map s.clients s.stream
          (copied k frames) =
        rw at at v.broadcasting in
      (
        _,
        refl,
        record {
          run = go stay (send at) tt;
          pool = refl;
          dispatcher = refl;
          clients = refl;
          head = refl;
          stream = omega (arith, length-append s.stream frames);
        },
      )

  from_ready :
      (s : Pipeline) (k : ℕ)
      → Inv worker s
      → s.broadcaster ≡ ready k
      → IsIn fl prepare cfg worker a s
      → (t : Pipeline) × (frames : List ℕ) × (t.broadcaster ≡ copied k frames) × Played s t 0
  from_ready s k v at member =
      let (small_k, _, enough) : BroadcasterOk worker s.batch_map s.clients s.stream (ready k) =
        rw at at v.broadcasting in
      elim (get_frames_to_broadcast_lem s.batch_map.buffer k v.common.ring small_k) [
        | inl (short, _) ↦ absurd (omega arith)
        | inr (_, e) ↦ elim (Bool-cases s.broadcaster_met) [
          | inl met ↦ (
            _,
            take (k * batch_size) (contents s.batch_map.buffer),
            refl,
            record {
              run = go stay (copy_frames at met e) tt;
              pool = refl;
              dispatcher = refl;
              clients = refl;
              head = refl;
              stream = omega arith;
            },
          )
          | inr unmet ↦ (
            _,
            take (k * batch_size) (contents s.batch_map.buffer),
            refl,
            record {
              run =
                  go (go stay (greet at unmet (IsIn-wait fl prepare cfg worker a s member)) tt)
                    (copy_frames at refl e) tt;
              pool = refl;
              dispatcher = refl;
              clients = refl;
              head = refl;
              stream = omega arith;
            },
          )
        ]
      ]

  Played-trans : (s t u : Pipeline) (m n : ℕ) → Played s t m → Played t u n → Played s u (m + n)
  Played-trans s t u m n p q = record {
    run = Steps-trans fl prepare cfg worker a p.run q.run;
    pool = q.pool ∙ p.pool;
    dispatcher = q.dispatcher ∙ p.dispatcher;
    clients = q.clients ∙ p.clients;
    head = q.head ∙ p.head;
    stream = omega (arith, p.stream, q.stream);
  }

  -- Wherever the broadcaster is, it comes to rest.
  pub to_resting :
      (s : Pipeline) (b : Broadcaster)
      → Inv worker s
      → s.broadcaster ≡ b
      → IsIn fl prepare cfg worker a s
      → (t : Pipeline) × (m : ℕ) × (t.broadcaster ≡ resting) × Played s t m
  to_resting s resting v at member = (
    s,
    0,
    at,
    record {
      run = stay;
      pool = refl;
      dispatcher = refl;
      clients = refl;
      head = refl;
      stream = omega arith;
    },
  )
  to_resting s (sent k) v at member = let (t, rest, p) = from_sent s k v at in (t, 0, rest, p)
  to_resting s (copied k frames) v at member =
      let (t, there, p) = from_copied s k frames v at in
      let (u, rest, q) =
        from_sent t k (Steps-Inv fl prepare cfg worker a first_small small v p.run) there in
      (u, k * batch_size + 0, rest, Played-trans s t u (k * batch_size) 0 p q)
  to_resting s (ready k) v at member =
      let (t, frames, there, p) = from_ready s k v at member in
      let v' = Steps-Inv fl prepare cfg worker a first_small small v p.run in
      let (u, gone, q) = from_copied t k frames v' there in
      let (w, rest, r) =
        from_sent u k (Steps-Inv fl prepare cfg worker a first_small small v' q.run) gone in
      (
        w,
        0 + k * batch_size + 0,
        rest,
        Played-trans s u w (0 + k * batch_size) 0 (Played-trans s t u 0 (k * batch_size) p q) r,
      )

  -- With enough in the ring the broadcaster wakes and sends.
  pub plays :
      (s : Pipeline)
      → Inv worker s
      → s.broadcaster ≡ resting
      → IsIn fl prepare cfg worker a s
      → s.batch_map.buffer.tail + seconds_of cfg s.is_first_broadcast * batch_size
        ≤ s.batch_map.buffer.head
      → seconds_of cfg s.is_first_broadcast < 2 ^ 32
      → (t : Pipeline) × Run s t
        × (length t.stream ≡ length s.stream + seconds_of cfg s.is_first_broadcast * batch_size)
  plays s v at member enough low =
      let k = seconds_of cfg s.is_first_broadcast in
      let up = record s { broadcaster = ready k; broadcaster_met = false } in
      let awake : Run s up =
        go stay (wake at (woken s.batch_map.buffer k v.common.ring low enough)) tt in
      let v' = Steps-Inv fl prepare cfg worker a first_small small v awake in
      let (t, frames, there, p) = from_ready up k v' refl member in
      let (u, _, q) =
        from_copied t k frames (Steps-Inv fl prepare cfg worker a first_small small v' p.run)
          there in
      (
        u,
        Steps-trans fl prepare cfg worker a awake (Steps-trans fl prepare cfg worker a p.run q.run),
        omega (arith, p.stream, q.stream),
      )
