-- ===== src/Mux/Response.antt =====
-- The recording response writer: internal/mux/response.go, over the writer of `net/http`.
use spegel.Base.{
  ℕ, ◌+◌, Str, length, take, Bool, true, false, ◌&&◌, not, Option, none, some, [], ◌∷◌, ◌++◌, Error,
  ◌==◌, leb, if◌then◌else◌,
}
use spegel.Base.Maps.{Map, insert}

-- The writer of `net/http` that is wrapped: the header that was sent, and the bytes of the body
-- that it took. `aborted` says that the handler panicked to close the connection. A status that is
-- no number from 100 to 999, at which it panics, is never written.
pub record Writer : Type 0 where
  pub headers : Map Str
  pub sent : Option ℕ
  pub body : Str
  pub aborted : Bool

-- Interim headers, which leave the final one to come.
unfoldable pub is_interim : ℕ → Bool
is_interim code = leb 100 code && leb code 199 && not (code == 101)

abbrev pub send : ℕ → Option ℕ → Option ℕ
send code (some sent) = some sent
send code none = if is_interim code then none else some code

abbrev pub or_ok : Option ℕ → Option ℕ
or_ok none = some 200
or_ok (some code) = some code

-- What the client sees in the end: a header that was never sent is sent then, as 200.
abbrev pub final_status : Writer → ℕ
final_status w = elim w.sent [ none ↦ 200 | some code ↦ code ]

pub record Response : Type 0 where
  pub inner : Writer
  pub error : Option Error
  pub status : ℕ
  pub size : ℕ
  pub written_header : Bool

abbrev pub new_response : Response
new_response = record {
  inner = record { headers = []; sent = none; body = []; aborted = false };
  error = none;
  status = 0;
  size = 0;
  written_header = false;
}

-- `WriteHeader`
unfoldable pub write_header : ℕ → Response → Response
write_header code r = record r {
  status = if not r.written_header then code else r.status;
  written_header = true;
  inner = record r.inner { sent = send code r.inner.sent };
}

-- `Write`, where the wrapped writer takes `n` bytes and sends its header first. An error is the
-- caller's and leaves no trace here.
unfoldable pub write : Str → ℕ → Response → Response
write b n r = record r {
  written_header = true;
  inner = record r.inner { sent = or_ok r.inner.sent; body = r.inner.body ++ take n b };
  size = r.size + length (take n b);
}

-- `WriteError`
unfoldable pub write_error : ℕ → Error → Response → Response
unfolding write_header
write_error code e r = write_header code (record r { error = some e })

-- `Flush`
unfoldable pub flush : Response → Response
flush r = record r { written_header = true; inner = record r.inner { sent = or_ok r.inner.sent } }

-- The header behind a copy: a reader that yields nothing sends none.
abbrev pub sent_after : Str → Option ℕ → Option ℕ
sent_after [] sent = sent
sent_after (c ∷ b) sent = or_ok sent

-- `ReadFrom`, where `n` bytes of the reader are copied to the wrapped writer.
unfoldable pub read_from : Str → ℕ → Response → Response
read_from b n r = record r {
  inner = record r.inner {
    sent = sent_after (take n b) r.inner.sent;
    body = r.inner.body ++ take n b;
  };
  size = r.size + length (take n b);
}

-- `rw.Header().Set(key, value)`
unfoldable pub set_header : Str → Str → Response → Response
set_header key value r = record r {
  inner = record r.inner { headers = insert key value r.inner.headers };
}

-- `Status`
unfoldable pub status : Response → ℕ
status r = if r.status == 0 then 200 else r.status
