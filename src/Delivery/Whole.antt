-- ===== src/Delivery/Whole.antt =====
-- The loops of the orchestrator, the pool, a client's queue and a worker at its other end, together.
use distributed_donut.Prelude.{
  ℕ, min, ◌+◌, ◌*◌, ◌≤◌, ◌<◌, ◌^◌, List, [], ◌∷◌, ◌++◌, length, length-append, map, append-nil,
  append_assoc, some, Bool, true, ◌≡◌, refl, sym, ap, subst, ◌∙◌, arith, ok, ◌==◌, Bool-cases, inl,
  inr,
}
use distributed_donut.Protocol.{frame_size, message_type_frame_broadcast}
use distributed_donut.Protocol.Errors.{Bytes}
use distributed_donut.Buffer.{max_frames}
use distributed_donut.Buffer.Floats.{Float64}
use distributed_donut.Client.Pool.{contains, broadcast}
use distributed_donut.Client.Pool.Capacity.{IsValid}
use distributed_donut.Orchestrator.{Config}
use distributed_donut.Orchestrator.Pipeline.{Pipeline, start, copied, sent}
use distributed_donut.Orchestrator.Pipeline.Steps.{Reach, follow, Step, send}
use distributed_donut.Orchestrator.Pipeline.Stream.{Reach-Batches}
use distributed_donut.Harness.Renderer.{verify_contiguous_frames}
use distributed_donut.Harness.Renderer.Frames.{frames_from, length-frames_from}
use distributed_donut.Harness.Renderer.Verify.{verify_contiguous_frames_iff, Bytes-append}
use distributed_donut.Harness.Worker.{Worker, Chance, run, frame_count}
use distributed_donut.Harness.Worker.Broadcasts.{Watches, payload, payloads, run-Watches, concat}
use distributed_donut.Harness.Integrity.{Synthetic, Bytes-Batches, Reach-verify_contiguous_frames}
use distributed_donut.Delivery.{
  Fleet, FleetStep, frames_out, accepts, body_of, frames_of, accepted, broadcasts_of,
}
use distributed_donut.Delivery.Queue.{broadcasts_of-append}
use distributed_donut.Delivery.Steps.{Delivers, FleetStep-Delivers}

module _ (fl : Float64) (cfg : Config) (worker : ℕ → List ℕ → Type 0) (a : ℕ) (s₀ : Pipeline) where
  -- The states that the loops and the fleet come to together, from the moment at which the client at `a`
  -- is in the pool with an empty queue. The `send` of the broadcaster is the pool's Broadcast; all other
  -- steps are taken by one of the two.
  pub data Together : Pipeline → Fleet → Type 0 where
    join :
        {f : Fleet}
        → Reach fl some cfg worker s₀
        → IsValid f.pool
        → contains f.pool.clients a ≡ true
        → (f.pool.store a).send ≡ []
        → f.log ≡ []
        → f.written ≡ []
        → Together s₀ f
    loop :
        {s t : Pipeline} {f : Fleet}
        → Together s f
        → Step fl some cfg worker s t
        → t.stream ≡ s.stream
        → Together t f
    play :
        {s : Pipeline} {f : Fleet} {seconds : ℕ} {frames : List ℕ}
        → Together s f
        → s.broadcaster ≡ copied seconds frames
        → Together
            (record s { broadcaster = sent seconds; stream = s.stream ++ frames })
            (record f {
              pool = broadcast some f.pool frames;
              log = f.log ++ (accepts (f.pool.store a), frames) ∷ [];
            })
    turn :
        {s : Pipeline} {f g : Fleet} → Together s f → FleetStep a f g → g.log ≡ f.log → Together s g

  Together-Reach : {s : Pipeline} {f : Fleet} → Together s f → Reach fl some cfg worker s
  Together-Reach (join reached _ _ _ _ _) = reached
  Together-Reach (loop r step _) = follow (Together-Reach r) step
  Together-Reach (play r e) = follow (Together-Reach r) (send e)
  Together-Reach (turn r _ _) = Together-Reach r

  pub Together-Delivers : {s : Pipeline} {f : Fleet} → Together s f → Delivers a f
  unfolding frames_of accepted
  Together-Delivers (join {f} _ valid member empty log written) = record {
    valid = valid;
    member = member;
    frames = rw (empty, log, written) refl;
  }
  Together-Delivers (loop r _ _) = Together-Delivers r
  Together-Delivers (play {frames = frames} r e) =
      FleetStep-Delivers (Together-Delivers r) (frames_out frames)
  Together-Delivers (turn r step _) = FleetStep-Delivers (Together-Delivers r) step

  pub concat-append :
      (xs : List (List ℕ)) (frames : List ℕ) → concat (xs ++ frames ∷ []) ≡ concat xs ++ frames
  unfolding concat
  concat-append [] frames = append-nil frames
  concat-append (x ∷ xs) frames =
      ap (λ (t : List ℕ). x ++ t) (concat-append xs frames)
      ∙ sym (append_assoc x (concat xs) frames)

  -- What was broadcast since the client is there are the frames in the log.
  Together-stream :
      {s : Pipeline} {f : Fleet}
      → Together s f
      → s.stream ≡ s₀.stream ++ concat (broadcasts_of f.log)
  unfolding concat broadcasts_of
  Together-stream (join _ _ _ _ log _) = rw log (sym (append-nil s₀.stream))
  Together-stream (loop r _ same) = same ∙ Together-stream r
  Together-stream (play {s} {f} {seconds} {frames} r e) =
      ap (λ (t : List ℕ). t ++ frames) (Together-stream r)
      ∙ append_assoc s₀.stream (concat (broadcasts_of f.log)) frames
      ∙ ap (λ (t : List ℕ). s₀.stream ++ t)
          (sym (concat-append (broadcasts_of f.log) frames)
            ∙ sym (ap concat (broadcasts_of-append f.log (accepts (f.pool.store a)) frames)))
  Together-stream (turn r _ same) =
      Together-stream r
      ∙ ap (λ (l : List (Bool × List ℕ)). s₀.stream ++ concat (broadcasts_of l)) (sym same)

concat_frames-append : (xs ys : List (List ℕ)) → concat (xs ++ ys) ≡ concat xs ++ concat ys
unfolding concat
concat_frames-append [] ys = refl
concat_frames-append (x ∷ xs) ys =
    ap (λ (t : List ℕ). x ++ t) (concat_frames-append xs ys)
    ∙ sym (append_assoc x (concat xs) (concat ys))

-- what a worker makes of a message is what the message broadcasts
payload-body_of : (msg : List ℕ) → payload msg ≡ concat (body_of msg)
unfolding concat
payload-body_of [] = refl
payload-body_of (tag ∷ body) = elim (Bool-cases (tag == message_type_frame_broadcast)) [
  | inl hit ↦ rw hit (sym (append-nil body))
  | inr miss ↦ rw miss
]

payloads-frames_of :
    (reads : List (List ℕ × Chance)) → payloads reads ≡ concat (frames_of (map (λ r. r.0) reads))
unfolding payloads concat frames_of
payloads-frames_of [] = refl
payloads-frames_of ((msg, chance) ∷ reads) =
    ap (λ (t : List ℕ). t ++ payloads reads) (payload-body_of msg)
    ∙ ap (λ (t : List ℕ). concat (body_of msg) ++ t) (payloads-frames_of reads)
    ∙ sym (concat_frames-append (body_of msg) (frames_of (map (λ r. r.0) reads)))

-- Of two ways to cut a list, the shorter front begins the longer.
append_cut :
    (xs ys zs ws : List ℕ)
    → xs ++ ys ≡ zs ++ ws
    → length xs ≤ length zs
    → (rest : List ℕ) × (zs ≡ xs ++ rest)
append_cut [] ys zs ws e h = (zs, refl)
append_cut (x ∷ xs) ys [] ws e h = absurd (omega arith)
append_cut (x ∷ xs) ys (z ∷ zs) ws e h =
    let (rest, same) = append_cut xs ys zs ws (cc (e)) (omega arith) in (rest, cc (e, same))

-- A front of a stream that passes the check passes it too, for as many frames as it has.
verify-front :
    (xs ys : List ℕ) (n : ℕ)
    → Bytes (xs ++ ys)
    → n * frame_size ≤ length xs
    → verify_contiguous_frames (xs ++ ys) n ≡ ok tt
    → verify_contiguous_frames xs n ≡ ok tt
verify-front xs ys n b long e = elim (verify_contiguous_frames_iff (xs ++ ys) n b) [
  | inr (bad, bad_e, _) ↦ absurd (ground (arith, e, bad_e))
  | inl (rest, same, _) ↦
      let (more, front) =
        append_cut (frames_from 0 n) rest xs ys (sym same)
          (omega (arith, length-frames_from 0 n)) in
      elim (verify_contiguous_frames_iff xs n (Bytes-append xs ys b).0) [
        | inl (_, _, passes) ↦ passes
        | inr (_, _, differs) ↦ absurd (differs more front)
      ]
]

module _ (fl : Float64) (cfg : Config) (worker : ℕ → List ℕ → Type 0) where
  -- A worker that watches, at the other end of a client that is in the pool, takes every message that was
  -- written to it, and then holds exactly what was broadcast since the client came, up to the frames that
  -- are still in the client's queue: nothing is lost, repeated or out of order, whatever tasks and
  -- statistics come in between. That is so at every moment and for every order of the turns, if no
  -- broadcast found the queue full.
  pub watcher_receives :
      (a : ℕ) (s₀ s : Pipeline) (f : Fleet) (w : Worker) (reads : List (List ℕ × Chance))
      → Together fl cfg worker a s₀ s f
      → accepted f.log ≡ broadcasts_of f.log
      → Watches w
      → w.received ≡ []
      → map (λ r. r.0) reads ≡ f.written
      → (w' : Worker) × (run w reads ≡ ok (w', []))
        × (s.stream ≡ s₀.stream ++ (w'.received ++ concat (frames_of (f.pool.store a).send)))
  watcher_receives a s₀ s f w reads r all v fresh same =
      let (w', e, kept, _, _, _) = run-Watches w reads v in
      let d = Together-Delivers fl cfg worker a s₀ r in
      let queued = frames_of (f.pool.store a).send in
      let held : w'.received ≡ concat (frames_of f.written) =
        kept
        ∙ ap (λ (t : List ℕ). t ++ payloads reads) fresh
        ∙ payloads-frames_of reads
        ∙ ap (λ (t : List (List ℕ)). concat (frames_of t)) same in
      (
        w',
        e,
        Together-stream fl cfg worker a s₀ r
            ∙ ap (λ (t : List ℕ). s₀.stream ++ t)
                (ap concat (sym all ∙ sym d.frames)
                  ∙ concat_frames-append (frames_of f.written) queued
                  ∙ ap (λ (t : List ℕ). t ++ concat queued) (sym held)),
      )

module _ (fl : Float64) (cfg : Config) where
  -- The harness's own test of the whole server: where workers return what a SyntheticRenderer makes, what
  -- a worker has collected that watches from the start passes VerifyContiguousFrames, for all frames it has,
  -- or for the first `MaxFrames` of them. No broadcast found its client's queue full, and the seconds to
  -- broadcast are below 2 ^ 32; the steps of the loops give a client fewer than 2 ^ 32 tasks and keep the
  -- head below 2 ^ 63.
  pub watcher_verifies :
      (a : ℕ) (s : Pipeline) (f : Fleet) (w : Worker) (reads : List (List ℕ × Chance))
      → cfg.first_seconds_to_broadcast < 2 ^ 32
      → cfg.seconds_to_broadcast < 2 ^ 32
      → Together fl cfg Synthetic a start s f
      → accepted f.log ≡ broadcasts_of f.log
      → Watches w
      → w.received ≡ []
      → map (λ r. r.0) reads ≡ f.written
      → (w' : Worker) × (run w reads ≡ ok (w', []))
        × (verify_contiguous_frames w'.received (min (frame_count w') max_frames) ≡ ok tt)
  unfolding start frame_count
  watcher_verifies a s f w reads first_small small r all v fresh same =
      let (w', e, whole) =
        watcher_receives fl cfg Synthetic a start s f w reads r all v fresh same in
      let n = min (frame_count w') max_frames in
      let queued = concat (frames_of (f.pool.store a).send) in
      let reached = Together-Reach fl cfg Synthetic a start r in
      let (k, _, batches) = Reach-Batches fl some cfg Synthetic first_small small s reached in
      let total : length s.stream ≡ length w'.received + length queued =
        ap (λ (t : List ℕ). length t) whole ∙ length-append w'.received queued in
      (
        w',
        e,
        verify-front w'.received queued n (subst Bytes whole (Bytes-Batches 0 k s.stream batches))
            (omega arith)
            (subst (λ t. verify_contiguous_frames t n ≡ ok tt) whole
              (Reach-verify_contiguous_frames fl some cfg first_small small s n reached
                (omega (arith, total)) (omega arith))),
      )
