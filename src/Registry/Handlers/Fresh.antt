-- ===== src/Registry/Handlers/Fresh.antt =====
-- Responses on which nothing was written yet, as the handlers of pkg/registry/registry.go get them.
use spegel.Base.{
  ◌+◌, ◌++◌, take, Bool, ◌≡◌, ◌⊎◌, refl, ℕ, Str, length, false, none, [], ◌∷◌, Error, arith,
}
use spegel.Base.Maps.{Map}
use spegel.Mux.Response.{
  Response, new_response, write_header, write, write_error, read_from, sent_after, set_header,
  status, final_status, is_interim,
}
use spegel.Registry.Handlers.{set_headers}

pub record Fresh (r : Response) : Type 0 where
  pub unwritten : r.written_header ≡ false
  pub no_status : r.status ≡ 0
  pub unsent : r.inner.sent ≡ none
  pub empty : r.inner.body ≡ []
  pub no_size : r.size ≡ 0

pub Fresh-new : Fresh new_response
Fresh-new = record {
  unwritten = refl;
  no_status = refl;
  unsent = refl;
  empty = refl;
  no_size = refl;
}

pub Fresh-set_header : (k v : Str) (r : Response) → Fresh r → Fresh (set_header k v r)
unfolding set_header
Fresh-set_header k v r f = ground arith

pub Fresh-set_headers : (headers : Map Str) (r : Response) → Fresh r → Fresh (set_headers headers r)
unfolding set_headers
Fresh-set_headers [] r f = f
Fresh-set_headers ((k, v) ∷ more) r f = Fresh-set_headers more _ (Fresh-set_header k v r f)

-- The answers of the registry: the status that is recorded is the one that the client sees, which is
-- 200, 404 or 500, and the size is that of the body.
pub record Settled (r : Response) : Type 0 where
  pub seen : status r ≡ final_status r.inner
  pub known : (status r ≡ 200) ⊎ ((status r ≡ 404) ⊎ (status r ≡ 500))
  pub sized : r.size ≡ length r.inner.body

pub Fresh-Settled : (r : Response) → Fresh r → Settled r
unfolding status
Fresh-Settled r f = ground arith

pub ok-Settled : (r : Response) → Fresh r → Settled (write_header 200 r)
unfolding status write_header is_interim
ok-Settled r f = ground arith

pub not_found-Settled : (r : Response) → Fresh r → Settled (write_header 404 r)
unfolding status write_header is_interim
not_found-Settled r f = ground arith

pub failed-Settled : (r : Response) → Fresh r → Settled (write_header 500 r)
unfolding status write_header is_interim
failed-Settled r f = ground arith

pub error-Settled :
    (code : ℕ) (e : Error) (r : Response)
    → Fresh r
    → (code ≡ 404) ⊎ (code ≡ 500)
    → Settled (write_error code e r)
unfolding status write_error is_interim
error-Settled code e r f known = ground arith

pub body-Settled : (b : Str) (n : ℕ) (r : Response) → Fresh r → Settled (write b n r)
unfolding status write
body-Settled b n r f = ground arith

copied-Settled :
    (b : Str) (r : Response)
    → Fresh r
    → Settled (record r {
      inner = record r.inner { sent = sent_after b r.inner.sent; body = r.inner.body ++ b };
      size = r.size + length b;
    })
unfolding status
copied-Settled [] r f = ground arith
copied-Settled (c ∷ b) r f = ground arith

pub copy-Settled : (b : Str) (n : ℕ) (r : Response) → Fresh r → Settled (read_from b n r)
unfolding status read_from
copy-Settled b n r f = copied-Settled (take n b) r f

pub proxied-status :
    (b : Str) (n : ℕ) (r : Response) → Fresh r → status (write b n (write_header 200 r)) ≡ 200
unfolding status write write_header
proxied-status b n r f = ground arith

pub proxied-Settled :
    (b : Str) (n : ℕ) (r : Response) → Fresh r → Settled (write b n (write_header 200 r))
unfolding status write write_header is_interim
proxied-Settled b n r f = ground arith

-- That the body is cut off changes nothing of what is recorded.
pub aborted-Settled :
    (b : Bool) (r : Response)
    → Settled r
    → Settled (record r { inner = record r.inner { aborted = b } })
unfolding status
aborted-Settled b r s = record { seen = s.seen; known = s.known; sized = s.sized }

pub error-status :
    (code : ℕ) (e : Error) (r : Response)
    → Fresh r
    → (code ≡ 404) ⊎ (code ≡ 500)
    → status (write_error code e r) ≡ code
unfolding status write_error
error-status code e r f known = ground arith
