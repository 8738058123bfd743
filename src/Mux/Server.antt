-- ===== src/Mux/Server.antt =====
-- The handler behind the response writer: internal/mux/mux.go.
use spegel.Base.{Option, none, some, Result, ok, err, error}
use spegel.Mux.Response.{Response, new_response}

-- `NewServeMux`, where `none` is a handler that is nil.
unfoldable pub new_serve_mux {ℓ} : {A : Type ℓ} → Option A → Result A
new_serve_mux none = err (error "handler cannot be nil")
new_serve_mux (some h) = ok h

-- `ServeHTTP`, for a request that was not answered yet.
unfoldable pub serve_http {ℓ κ} : {R : Type ℓ} {A : Type κ} → (R → Response → A) → R → A
serve_http h req = h req new_response
