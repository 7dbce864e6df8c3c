-- ===== src/Delivery/Steps.antt =====
-- The frames that a client is sent: those of each broadcast that its queue took, in order and whole,
-- whatever else is put into the queue in between.
use distributed_donut.Prelude.{
  ℕ, List, [], ◌∷◌, ◌++◌, length, append_assoc, some, true, false, ◌==◌, if◌then◌else◌, ◌≡◌, sym,
  ap, ◌∙◌, arith, ℕ_discrete, ==_refl,
}
use distributed_donut.Protocol.{encode_frame_broadcast}
use distributed_donut.Client.{Client, enqueue, request_work, Ready, write_pump}
use distributed_donut.Client.Pool.{
  ClientPool, contains, update, broadcast, broadcast_client_count, broadcast_buffer_fullness,
  broadcast_encoded, snapshot,
}
use distributed_donut.Client.Pool.Capacity.{IsValid}
use distributed_donut.Client.Pool.Fanout.{enqueue_all_lem}
use distributed_donut.Orchestrator.Telemetry.{client_count, buffer_fullness, tick_telemetry}
use distributed_donut.Delivery.{
  Fleet, FleetStep, frames_out, stats_out, task_out, pump, others, accepts, body_of, frames_of,
  accepted,
}
use distributed_donut.Delivery.Queue.{
  frames_of-append, accepted-append, body_of-encode_frame_broadcast, frames_of-enqueue,
  frames_of-enqueue_other, frames_of-request_work, frames_of-write_pump,
  body_of-encode_client_count, body_of-encode_buffer_fullness,
}

length-contains : (xs : List ℕ) (a : ℕ) → contains xs a ≡ true → (length xs == 0) ≡ false
unfolding contains
length-contains [] a h = cc
length-contains (x ∷ xs) a h = ground arith

-- A broadcast to a pool with the client in it: its queue is given the message, and the clients stay.
pub broadcast_encoded-member :
    (p : ClientPool) (a : ℕ) (msg : List ℕ)
    → IsValid p
    → contains p.clients a ≡ true
    → ((broadcast_encoded some p msg).store a ≡ enqueue (p.store a) msg)
      × (contains (broadcast_encoded some p msg).clients a ≡ true)
      × IsValid (broadcast_encoded some p msg)
unfolding broadcast_encoded snapshot
broadcast_encoded-member p a msg v h = rw (length-contains p.clients a h) (
  enqueue_all_lem p.store p.clients msg a v.once
      ∙ ap (λ b. if b then enqueue (p.store a) msg else p.store a) h,
  h,
  record { once = v.once; capped = v.capped },
)

pub update_same : (store : ℕ → Client) (a : ℕ) (c : Client) → update store a c a ≡ c
update_same store a c = rw (==_refl a)

update_other :
    (store : ℕ → Client) (a b : ℕ) (c : Client) → (b ≡ a → ⊥) → update store b c a ≡ store a
update_other store a b c ne = ground arith

-- What the client has been sent and what is queued for it.
abbrev pub outgoing : ℕ → Fleet → List (List ℕ)
outgoing a f = frames_of f.written ++ frames_of (f.pool.store a).send

-- The client is in a valid pool, and what it was sent and what is queued are the broadcasts that its
-- queue took.
pub record Delivers (a : ℕ) (f : Fleet) : Type 0 where
  pub valid : IsValid f.pool
  pub member : contains f.pool.clients a ≡ true
  pub frames : outgoing a f ≡ accepted f.log

-- A message without frames, to every client.
stats-Delivers :
    (a : ℕ) (f : Fleet) (msg : List ℕ)
    → body_of msg ≡ []
    → Delivers a f
    → Delivers a (record f { pool = broadcast_encoded some f.pool msg })
stats-Delivers a f msg e d =
    let (store, member, valid) = broadcast_encoded-member f.pool a msg d.valid d.member in
    record {
      valid = valid;
      member = member;
      frames =
          ap (λ (c : Client). frames_of f.written ++ frames_of c.send) store
          ∙ ap (λ (t : List (List ℕ)). frames_of f.written ++ t)
              (frames_of-enqueue_other (f.pool.store a) msg e)
          ∙ d.frames;
    }

frames_out-Delivers :
    (a : ℕ) (f : Fleet) (frames : List ℕ)
    → Delivers a f
    → Delivers a (record f {
      pool = broadcast some f.pool frames;
      log = f.log ++ (accepts (f.pool.store a), frames) ∷ [];
    })
unfolding broadcast
frames_out-Delivers a f frames d =
    let msg = encode_frame_broadcast frames in
    let c = f.pool.store a in
    let (store, member, valid) = broadcast_encoded-member f.pool a msg d.valid d.member in
    let taken = if accepts c then frames ∷ [] else [] in
    record {
      valid = valid;
      member = member;
      frames =
          ap (λ (x : Client). frames_of f.written ++ frames_of x.send) store
          ∙ ap (λ (t : List (List ℕ)). frames_of f.written ++ t)
              (frames_of-enqueue c msg
                ∙ ap (λ (t : List (List ℕ)). frames_of c.send ++ (if accepts c then t else []))
                    (body_of-encode_frame_broadcast frames))
          ∙ sym (append_assoc (frames_of f.written) (frames_of c.send) taken)
          ∙ ap (λ (t : List (List ℕ)). t ++ taken) d.frames
          ∙ sym (accepted-append f.log (accepts c) frames);
    }

task_out-Delivers :
    (a b id first last : ℕ) (f : Fleet)
    → Delivers a f
    → Delivers a (record f {
      pool = record (f.pool) {
        store = update f.pool.store b (request_work some (f.pool.store b) id first last);
      };
    })
task_out-Delivers a b id first last f d = record {
  valid = record { once = d.valid.once; capped = d.valid.capped };
  member = d.member;
  frames = ap (λ (t : List (List ℕ)). frames_of f.written ++ t) (queue (ℕ_discrete b a)) ∙ d.frames;
}
  where
    given : Client
    given = request_work some (f.pool.store b) id first last

    queue :
        Dec (b ≡ a)
        → frames_of (update f.pool.store b given a).send ≡ frames_of (f.pool.store a).send
    queue (yes same) =
        ap (λ k. frames_of (update f.pool.store b given k).send) (sym same)
        ∙ ap (λ (c : Client). frames_of c.send) (update_same f.pool.store b given)
        ∙ frames_of-request_work (f.pool.store b) id first last
        ∙ ap (λ k. frames_of (f.pool.store k).send) same
    queue (no ne) = ap (λ (c : Client). frames_of c.send) (update_other f.pool.store a b given ne)

pump-Delivers :
    (a : ℕ) (f : Fleet) (c' : Client) (r : Ready) (sent : List (List ℕ))
    → write_pump (f.pool.store a) r ≡ (true, c', sent)
    → Delivers a f
    → Delivers a (record f {
      pool = record (f.pool) { store = update f.pool.store a c' };
      written = f.written ++ sent;
    })
pump-Delivers a f c' r sent e d = record {
  valid = record { once = d.valid.once; capped = d.valid.capped };
  member = d.member;
  frames =
      ap (λ (c : Client). frames_of (f.written ++ sent) ++ frames_of c.send)
        (update_same f.pool.store a c')
      ∙ ap (λ (t : List (List ℕ)). t ++ frames_of c'.send) (frames_of-append f.written sent)
      ∙ append_assoc (frames_of f.written) (frames_of sent) (frames_of c'.send)
      ∙ ap (λ (t : List (List ℕ)). frames_of f.written ++ t)
          (frames_of-write_pump (f.pool.store a) c' r sent e)
      ∙ d.frames;
}

-- Every turn of any goroutine, a broadcast, statistics, a task for any client, the client's own writer or
-- what happens to others, keeps it that the client is in a valid pool and that the frames it was sent and
-- has queued are those of the broadcasts that its queue had room for, in order and whole.
pub FleetStep-Delivers : {a : ℕ} {f g : Fleet} → Delivers a f → FleetStep a f g → Delivers a g
unfolding tick_telemetry broadcast_client_count broadcast_buffer_fullness
FleetStep-Delivers {a} {f} d (frames_out frames) = frames_out-Delivers a f frames d
FleetStep-Delivers {a} {f} d (stats_out fb client_count) =
    stats-Delivers a f _ (body_of-encode_client_count _) d
FleetStep-Delivers {a} {f} d (stats_out fb buffer_fullness) =
    stats-Delivers a f _ (body_of-encode_buffer_fullness _) d
FleetStep-Delivers {a} {f} d (task_out b id first last) = task_out-Delivers a b id first last f d
FleetStep-Delivers {a} {f} d (pump {c'} {sent} r e) = pump-Delivers a f c' r sent e d
FleetStep-Delivers {a} {f} d (others p' same member valid) = record {
  valid = valid;
  member = member;
  frames = ap (λ (c : Client). frames_of f.written ++ frames_of c.send) same ∙ d.frames;
}
