-- ===== src/Orchestrator/Pipeline/Broadcast.antt =====
-- How the loops come to the first broadcast once a client has joined.
use distributed_donut.Prelude.{
  [], ◌∷◌, ◌∙◌, ℕ, ◌*◌, ◌≤◌, ◌<◌, ◌≡◌, ◌^◌, refl, ap, List, length, Option, true, arith,
}
use distributed_donut.Protocol.{batch_size}
use distributed_donut.Orchestrator.BatchMap.{new_frame_batch_map}
use distributed_donut.Buffer.{new_frame_buffer, max_batches}
use distributed_donut.Buffer.Floats.{Float64}
use distributed_donut.Orchestrator.{Config}
use distributed_donut.Orchestrator.Pipeline.{Pipeline, start, idle_client, update, resting}
use distributed_donut.Orchestrator.Pipeline.Steps.{
  Reach, begin, follow, admit, meet, spawn, other, seconds_of,
}
use distributed_donut.Orchestrator.Pipeline.Stream.{Reach-Inv}
use distributed_donut.Orchestrator.Pipeline.Progress.{
  IsIn, IsIn-wait, Steps, Steps-trans, stay, go, Answers, Round-ends,
}
use distributed_donut.Orchestrator.Pipeline.Waking.{let_in}
use distributed_donut.Orchestrator.Pipeline.Onward.Playing.{plays}
use distributed_donut.Client.Pool.{contains}

-- The loops where the client `a`, and nobody else, has joined the pool.
abbrev pub joined : ℕ → Pipeline
joined a = record start { clients = update start.clients a (idle_client a); pool = a ∷ [] }

module _ (fl : Float64) (prepare : List ℕ → Option (List ℕ)) (cfg : Config)
    (worker : ℕ → List ℕ → Type 0) (a : ℕ) (first_small : cfg.first_seconds_to_broadcast < 2 ^ 32)
    (small : cfg.seconds_to_broadcast < 2 ^ 32) where
  pub Reach-joined : Reach fl prepare cfg worker (joined a)
  unfolding start
  Reach-joined = follow begin (other _ (a ∷ []) (λ i. (ground arith, ground arith)))

  pub Reach-Steps :
      {s t : Pipeline}
      → Reach fl prepare cfg worker s
      → Steps fl prepare cfg worker a s t
      → Reach fl prepare cfg worker t
  Reach-Steps reached stay = reached
  Reach-Steps reached (go rest step only) = follow (Reach-Steps reached rest) step

  joined-IsIn : IsIn fl prepare cfg worker a (joined a)
  unfolding contains
  joined-IsIn = ground arith

  abbrev k : ℕ
  k = cfg.first_seconds_to_broadcast

  -- the first round, done
  first_round :
      Answers fl prepare cfg worker a
      → k ≤ max_batches
      → (t : Pipeline) × Steps fl prepare cfg worker a (joined a) t
        × (t.batch_map.buffer.head ≡ k * batch_size)
        × (t.batch_map.buffer.tail ≡ 0)
        × (t.broadcaster ≡ resting)
        × (t.is_first_broadcast ≡ true)
        × (length t.stream ≡ 0)
        × (t.pool ≡ a ∷ [])
  unfolding start new_frame_batch_map new_frame_buffer
  first_round answers fits =
      let v = Reach-Inv fl prepare cfg worker first_small small Reach-joined in
      let (sleep, e) =
        let_in fl start.batch_map.buffer k cfg.broadcast_interval v.common.ring (omega arith) in
      let first : Steps fl prepare cfg worker a (joined a) _ =
        go
          (go (go stay (admit refl e) tt)
            (meet refl refl (IsIn-wait fl prepare cfg worker a (joined a) joined-IsIn)) tt)
          (spawn refl refl) tt in
      let (t, steps, _, head, tail, resting', is_first, stream, pool, _) =
        Round-ends fl prepare cfg worker a first_small small _ k _ _
          (Reach-Inv fl prepare cfg worker first_small small (Reach-Steps Reach-joined first)) refl
          answers joined-IsIn (λ i. ground arith) (omega arith) in
      (
        t,
        Steps-trans fl prepare cfg worker a first steps,
        omega (arith, head),
        tail,
        resting',
        is_first,
        ap (λ (x : List ℕ). length x) stream,
        pool,
      )

  pub first_broadcast :
      Answers fl prepare cfg worker a
      → k ≤ max_batches
      → (t : Pipeline) × Steps fl prepare cfg worker a (joined a) t
        × (length t.stream ≡ k * batch_size)
  first_broadcast answers fits =
      let (t, steps, head, tail, at_rest, is_first, stream, pool) = first_round answers fits in
      let v = Reach-Inv fl prepare cfg worker first_small small (Reach-Steps Reach-joined steps) in
      let choice : seconds_of cfg t.is_first_broadcast ≡ k = rw is_first refl in
      let member : IsIn fl prepare cfg worker a t =
        ap (λ (x : List ℕ). contains x a) pool ∙ joined-IsIn in
      let (u, run, more) =
        plays fl prepare cfg worker a first_small small t v at_rest member
          (omega (arith, choice, tail, head)) (omega (arith, choice)) in
      (u, Steps-trans fl prepare cfg worker a steps run, omega (arith, more, stream, choice))
