-- ===== src/Lib.antt =====
-- Distributed Donut: a Go server that has browsers render the frames of an animation and plays them back
-- to all of them. This library models the server's own logic and proves what makes it correct.
--
-- The parts and how they interact. The dispatcher asks clients for batches of 60 frames; what a client
-- sends back is decoded, looked up among the outstanding tasks and written into a ring of 1800
-- batches; the broadcaster reads the ring in order and sends the frames to every client.
--
-- internal/protocol: `Protocol` has the sizes, tags, encoders and decoders (EncodeRenderTask is
-- `encode_render_task`, and so on); `Protocol/RoundTrip` and `Protocol/Errors` their laws.
-- internal/buffer/frame_buffer.go: `Buffer` has each method of FrameBuffer. `Buffer/Ring` reads the ring as
-- a queue of bytes: `Read` and `Write` are the two sides, `Window` the arithmetic of going round.
-- `Buffer/Waits` is about the two condition waits, the fullness and the pause; `Buffer/Floats` is the
-- float64 arithmetic of timeToSleep as a parameter, since there are no floats here.
-- internal/client/client.go: `Client`, with `Client/Messages` on what comes in and goes out;
-- internal/client/pool.go: `Client/Pool`, with `Capacity` on who is in the pool, `Fanout` on
-- broadcasts and `Order` on the order of Go's map, which no operation shows.
-- internal/orchestrator/batch_map.go and batch_metadata.go: `Orchestrator/BatchMap`, with `View` on the
-- nested maps as one table and `Save` on the channel discipline and SaveRenderResult.
-- internal/orchestrator/orchestrator.go: `Orchestrator` has the configuration, `Orchestrator/Pipeline` the
-- goroutines as program counters, and `Orchestrator/Pipeline/Steps` their steps. `Invariant` there says
-- how the tasks of a round, the batch map and the ring agree, `Batches` what a stream of whole batches is;
-- `Playback`, `Rounds`, `Tasks` and `Results` go through the steps of the broadcaster, the dispatcher, a
-- task and a result, with `Framing`, `Slots` and `Tables` for what they share, and `Stream` puts them
-- together.
-- `Calls` there is about the next call of the broadcaster and of a task, `Waking` about when the waits for
-- the ring end, and `Progress`, `Broadcast` and `Onward` about what the loops can come to. `Tasks`, `Results`, `Progress`, `Onward` and `BatchMap/Save` have child modules,
-- whose names they pass on or use.
-- `Orchestrator/Telemetry` is the telemetry loop, with `Ticks` on what it tells the clients.
-- internal/server/server.go: `Server`, with `Connection` on one connection and `Safety` on what its messages
-- do to the batch map, and `Http` on the server around the connections.
-- internal/harness: `Harness/Renderer` has renderer.go, with `Frames` on what is rendered and `Verify` on the
-- check of a stream, and `Harness/Worker` has worker.go, with `Results`, `Broadcasts` and `Waiting` on
-- what it returns, collects and waits for; `Harness/Integrity` puts the renderer, the check
-- and the loops of the orchestrator together.
-- `Harness/Cluster` is a cluster under test (cluster.go).
-- `Delivery` puts pool, queues, writers and telemetry together as one client sees them: `Queue` and `Steps`
-- are about its queue, `Whole` about a worker at its other end while the loops of the orchestrator run, and
-- `Prompt` shows that a client can keep up with them.
-- cmd/donut-server/logging.go: `Command/Logging`, with `Sampled` and `Spacing` on which records are
-- written, `Derived` on newLogger and the handlers derived from its own, and `Level` with parseLevel.
-- cmd/donut-server/main.go: `Command/Startup`, with `Precedence` on where the settings come from, and
-- `Command/Lifetime` with the life of the process: `Ends` is about why it ends, `Onward` that it does.
-- internal/debug/console.go: `Debug`, with `Debug/Drawer` on a tick and `Debug/Runs` on its loop.
--
-- State and operations. A struct is a record, and a method a function to the new record; a Go error is
-- `err`, a panic is `panic` (`Prelude/Outcomes`). A method that holds a mutex from end to end is one step.
-- uint8, uint32 and uint64 are numbers with the wrap-around written out (`Prelude/Words`); an int is the
-- 64-bit word that it is stored as. The ring's array is a function from positions to bytes. A map is an
-- association list (`Prelude/Map`). A channel that is only closed is a number with a flag. There is no
-- fuel: every loop recurs on a list or on the rounds left. The steps of the loops give a client fewer than
-- 2 ^ 32 tasks and keep the head, a uint64, below 2 ^ 63, which is millions of years of playback.
--
-- Parameters. gorilla/websocket enters as `prepare` (NewPreparedMessage) and as the outcome of a write;
-- math/rand as `choose`, of which only rand.Intn's bound is used. What a worker returns is arbitrary
-- wherever a theorem does not say otherwise. slog's handlers, time.ParseDuration, strconv.Atoi
-- and what the flag package read are arguments too.
--
-- Not modelled: net/http, whose documented behaviour is in the steps of the process and whose mux is a
-- parameter of `handler`, the embedding of the static files, the browser client, and real time: a
-- timeout or a tick may come at any moment.
pub mod Prelude
pub mod Protocol
pub mod Buffer
pub mod Client
pub mod Orchestrator
pub mod Debug
pub mod Server
pub mod Harness
pub mod Command
pub mod Delivery
