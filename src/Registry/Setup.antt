-- ===== src/Registry/Setup.antt =====
-- How a registry is made: `NewRegistry` with its options, and `Server`, of
-- pkg/registry/registry.go.
use spegel.Base.{ℕ, Str, Bool, true, none, some, List, [], ◌∷◌, Result, ok}
use spegel.Base.{◌>>=◌}
use spegel.Base.Int.{ℤ}
use spegel.Mux.Server.{new_serve_mux, serve_http}
use spegel.Registry.Handlers.{handle}
use spegel.Registry.Handlers.Exchange.{Registry, Environment, Request, Answer}

abbrev pub with_resolve_retries : ℕ → Registry → Registry
with_resolve_retries resolve_retries r = record r { resolve_retries = resolve_retries }

abbrev pub with_resolve_timeout : ℕ → Registry → Registry
with_resolve_timeout resolve_timeout r = record r { resolve_timeout = resolve_timeout }

abbrev pub with_resolve_latest_tag : Bool → Registry → Registry
with_resolve_latest_tag resolve_latest_tag r = record r { resolve_latest_tag = resolve_latest_tag }

abbrev pub with_local_address : Str → Registry → Registry
with_local_address local_addr r = record r { local_addr = local_addr }

-- `WithBlobSpeed`, with the throttler by its speed.
abbrev pub with_blob_speed : ℤ → Registry → Registry
with_blob_speed blob_speed r = record r { throttler = some blob_speed }

-- The loop over the options.
abbrev pub with_options : List (Registry → Registry) → Registry → Registry
with_options [] r = r
with_options (opt ∷ opts) r = with_options opts (opt r)

-- `NewRegistry`
unfoldable pub new_registry : List (Registry → Registry) → Registry
new_registry opts = with_options opts (record {
  throttler = none;
  local_addr = [];
  resolve_retries = 3;
  resolve_timeout = 20000000;
  resolve_latest_tag = true;
})

-- The handler of `Server`.
unfoldable pub server : Registry → Environment → Result (Request → Answer)
server reg env = do h ← new_serve_mux (some (handle reg env)); ok (serve_http h)
