-- ===== src/Server/Http.antt =====
-- internal/server/server.go: the HTTP server around the connections: what it is made of, where a request goes
-- and what ListenAndServe reports. net/http is given: `serve_mux` is the choice that its ServeMux makes
-- among the registered patterns, and an `HttpError` is what its own ListenAndServe returned.
use distributed_donut.Client.{ResultHandler}
use distributed_donut.Prelude.{List, [], ◌∷◌, Option, none, some, Bool, true}
use Prim.Native.String.{String}

-- http.ErrServerClosed, or another error by its text
pub data HttpError : Type 0 where
  server_closed : HttpError
  other : (text : String) → HttpError

-- What ListenAndServe returns once that of net/http has: nil for a server that was shut down.
unfoldable pub listen_and_serve : HttpError → Option HttpError
listen_and_serve server_closed = none
listen_and_serve (other text) = some (other text)

-- `pool` is the reference to the pool; of the upgrader, whether it compresses.
record Server {ℓ κ μ} (Pool : Type ℓ) (S : Type κ) (Files : Type μ) : Type (ℓ ⊔ κ ⊔ μ) where
  pool : Pool
  on_result : Option (ResultHandler S)
  enable_compression : Bool
  assets : Files

unfoldable new_server {ℓ κ μ} :
    {Pool : Type ℓ} {S : Type κ} {Files : Type μ}
    → Pool
    → Option (ResultHandler S)
    → Files
    → Server Pool S Files
new_server pool on_result assets = record {
  pool = pool;
  on_result = on_result;
  enable_compression = true;
  assets = assets;
}

-- Who serves a request: the handler of new connections, or the file server on some files.
data Route {ℓ} (Files : Type ℓ) : Type ℓ where
  new_connection : Route Files
  file_server : (files : Files) → Route Files

-- `Handler`: the patterns that are registered, and the choice of the mux between them
unfoldable handler {ℓ κ μ} :
    {Pool : Type ℓ} {S : Type κ} {Files : Type μ}
    → (serve_mux : List (String × Route Files) → String → Option (Route Files))
    → Server Pool S Files
    → (path : String) → Option (Route Files)
handler serve_mux s = serve_mux (("/ws", new_connection) ∷ ("/", file_server s.assets) ∷ [])
