-- ===== src/Delivery/Prompt.antt =====
-- A client whose writer runs after every broadcast: its queue is never full.
use distributed_donut.Prelude.{
  ℕ, List, [], ◌∷◌, ◌++◌, some, Bool, true, ◌≡◌, refl, sym, ap, ap₂, ◌∙◌, if◌then◌else◌,
}
use distributed_donut.Protocol.{encode_frame_broadcast}
use distributed_donut.Buffer.Floats.{Float64}
use distributed_donut.Client.{Client, enqueue, write_pump, on_send, written}
use distributed_donut.Client.Pool.{ClientPool, contains, update, broadcast}
use distributed_donut.Client.Pool.Capacity.{IsValid}
use distributed_donut.Orchestrator.{Config}
use distributed_donut.Orchestrator.Pipeline.{Pipeline, Task, start, copied, sent}
use distributed_donut.Orchestrator.Pipeline.Steps.{
  Reach, begin, follow, admit, spawn, task, advance, result, other, wake, copy_frames, send, remove,
  TaskStep, pick, number, assign, done, time_out, assign_again, meet, greet,
}
use distributed_donut.Delivery.{Fleet, pump, accepts, accepted, broadcasts_of}
use distributed_donut.Delivery.Queue.{accepted-append, broadcasts_of-append}
use distributed_donut.Delivery.Steps.{broadcast_encoded-member, update_same}
use distributed_donut.Delivery.Whole.{Together, join, loop, play, turn, Together-Delivers}

-- The queue is empty, and took every broadcast.
pub record KeptUp (a : ℕ) (f : Fleet) : Type 0 where
  pub idle : (f.pool.store a).send ≡ []
  pub all : accepted f.log ≡ broadcasts_of f.log

-- An empty queue takes a message, and the writer takes it out again.
write_pump-enqueue :
    (c : Client) (msg : List ℕ)
    → c.send ≡ []
    → write_pump (enqueue c msg) (on_send written) ≡ (true, record c { send = [] }, msg ∷ [])
unfolding write_pump enqueue
write_pump-enqueue c msg e = rw e refl

accepts_idle : (c : Client) → c.send ≡ [] → accepts c ≡ true
accepts_idle c e = rw e refl

all-append :
    (log : List (Bool × List ℕ)) (taken : Bool) (frames : List ℕ)
    → accepted log ≡ broadcasts_of log
    → taken ≡ true
    → accepted (log ++ (taken, frames) ∷ []) ≡ broadcasts_of (log ++ (taken, frames) ∷ [])
all-append log taken frames e t =
    accepted-append log taken frames
    ∙ ap₂ (λ (x : List (List ℕ)) b. x ++ (if b then frames ∷ [] else [])) e t
    ∙ sym (broadcasts_of-append log taken frames)

TaskStep-stream :
    {fl : Float64} {cfg : Config} {worker : ℕ → List ℕ → Type 0} {s : Pipeline} {current j : ℕ}
    {before next : Task} {t : Pipeline}
    → TaskStep fl some cfg worker s current j before t next
    → t.stream ≡ s.stream
TaskStep-stream (pick p) = refl
TaskStep-stream (number room e) = refl
TaskStep-stream (assign e e') = refl
TaskStep-stream (done closed) = refl
TaskStep-stream (time_out next) = refl
TaskStep-stream (assign_again room e) = refl

module _ (fl : Float64) (cfg : Config) (worker : ℕ → List ℕ → Type 0) (a : ℕ) (p : ClientPool)
    (valid : IsValid p) (member : contains p.clients a ≡ true) (idle : (p.store a).send ≡ []) where
  abbrev Meets : Pipeline → Type 0
  Meets s = (f : Fleet) × Together fl cfg worker a start s f × KeptUp a f

  -- A broadcast, and then the client's writer.
  played :
      {s : Pipeline} (seconds : ℕ) (frames : List ℕ)
      → s.broadcaster ≡ copied seconds frames
      → Meets s
      → Meets (record s { broadcaster = sent seconds; stream = s.stream ++ frames })
  unfolding broadcast
  played seconds frames e (f, r, k) =
      let d = Together-Delivers fl cfg worker a start r in
      let c = f.pool.store a in
      let msg = encode_frame_broadcast frames in
      let (store, _, _) = broadcast_encoded-member f.pool a msg d.valid d.member in
      let pool = broadcast some f.pool frames in
      let c' = record c { send = [] } in
      let taken = write_pump-enqueue c msg k.idle in
      (
        record f {
          pool = record pool { store = update pool.store a c' };
          log = f.log ++ (accepts c, frames) ∷ [];
          written = f.written ++ msg ∷ [];
        },
        turn (play r e)
            (pump (on_send written) (ap (λ x. write_pump x (on_send written)) store ∙ taken)) refl,
        record {
          idle = ap (λ (x : Client). x.send) (update_same pool.store a c');
          all = all-append f.log (accepts c) frames k.all (accepts_idle c k.idle);
        },
      )

  -- Whatever the loops come to, a client that is there from the start can have kept up with it.
  pub Reach-Together : {s : Pipeline} → Reach fl some cfg worker s → Meets s
  unfolding accepted broadcasts_of
  Reach-Together begin = (
    record { pool = p; log = []; written = [] },
    join begin valid member idle refl refl,
    record { idle = idle; all = refl },
  )
  Reach-Together (follow reached (send {seconds} {frames} e)) =
      played seconds frames e (Reach-Together reached)
  Reach-Together (follow reached (admit e h)) =
      let (f, r, k) = Reach-Together reached in (f, loop r (admit e h) refl, k)
  Reach-Together (follow reached (meet e m h)) =
      let (f, r, k) = Reach-Together reached in (f, loop r (meet e m h) refl, k)
  Reach-Together (follow reached (spawn e m)) =
      let (f, r, k) = Reach-Together reached in (f, loop r (spawn e m) refl, k)
  Reach-Together (follow reached (task j e lt step)) =
      let (f, r, k) = Reach-Together reached in
      (f, loop r (task j e lt step) (TaskStep-stream step), k)
  Reach-Together (follow reached (advance e over far)) =
      let (f, r, k) = Reach-Together reached in (f, loop r (advance e over far) refl, k)
  Reach-Together (follow reached (result c x whole made h)) =
      let (f, r, k) = Reach-Together reached in (f, loop r (result c x whole made h) refl, k)
  Reach-Together (follow reached (other clients pool same)) =
      let (f, r, k) = Reach-Together reached in (f, loop r (other clients pool same) refl, k)
  Reach-Together (follow reached (wake e h)) =
      let (f, r, k) = Reach-Together reached in (f, loop r (wake e h) refl, k)
  Reach-Together (follow reached (greet e m h)) =
      let (f, r, k) = Reach-Together reached in (f, loop r (greet e m h) refl, k)
  Reach-Together (follow reached (copy_frames e m h)) =
      let (f, r, k) = Reach-Together reached in (f, loop r (copy_frames e m h) refl, k)
  Reach-Together (follow reached (remove e h)) =
      let (f, r, k) = Reach-Together reached in (f, loop r (remove e h) refl, k)
