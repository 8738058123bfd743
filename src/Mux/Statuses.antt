-- ===== src/Mux/Statuses.antt =====
-- Whether the recorded status is the one that the client sees: internal/mux/response.go.
use spegel.Base.{
  ℕ, ◌≤◌, ◌≡◌, refl, Str, length, length-append, take, All, true, false, none, some, List, [], ◌∷◌,
  Error, arith,
}
use spegel.Mux.Response.{
  Response, new_response, final_status, is_interim, write_header, write, write_error, flush,
  read_from, set_header, status,
}

-- The calls that a handler makes on its writer.
pub data Call : Type 0 where
  header : ℕ → Call
  body : Str → ℕ → Call
  failure : ℕ → Error → Call
  flushed : Call
  copied : Str → ℕ → Call
  set : Str → Str → Call

unfoldable pub call : Call → Response → Response
unfolding write_header write write_error flush read_from set_header
call (header code) r = write_header code r
call (body b n) r = write b n r
call (failure code e) r = write_error code e r
call flushed r = flush r
call (copied b n) r = read_from b n r
call (set k v) r = set_header k v r

unfoldable pub run : List Call → Response → Response
run [] r = r
run (c ∷ cs) r = run cs (call c r)

-- A call that writes final headers only, and does not copy from a reader.
abbrev pub IsPlain : Call → Type 0
IsPlain (header code) = 200 ≤ code
IsPlain (failure code e) = 200 ≤ code
IsPlain (copied b n) = ⊥
IsPlain _ = Unit

record Agrees (r : Response) : Type 0 where
  nothing : r.written_header ≡ false → (r.inner.sent ≡ none) × (r.status ≡ 0)
  something : r.written_header ≡ true → r.inner.sent ≡ some (status r)

Agrees-call : (c : Call) (r : Response) → IsPlain c → Agrees r → Agrees (call c r)
unfolding call status is_interim
Agrees-call (header code) r p a = ground arith
Agrees-call (failure code e) r p a = ground arith
Agrees-call (body b n) r p a = ground arith
Agrees-call flushed r p a = ground arith
Agrees-call (copied b n) r p a = absurd p
Agrees-call (set k v) r p a = ground arith

Agrees-run : (cs : List Call) (r : Response) → All IsPlain cs → Agrees r → Agrees (run cs r)
unfolding run
Agrees-run [] r p a = a
Agrees-run (c ∷ cs) r p a = Agrees-run cs (call c r) p.1 (Agrees-call c r p.0 a)

Agrees-new : Agrees new_response
Agrees-new = record { nothing = λ _. (refl, refl); something = λ e. cc }

Agrees-status : (r : Response) → Agrees r → status r ≡ final_status r.inner
unfolding status
Agrees-status r a = ground (arith, a.nothing, a.something)

-- After any calls that write final headers and do not copy from a reader, in any order and however
-- often, the recorded status is the one that the client sees.
pub status-run :
    (cs : List Call)
    → All IsPlain cs
    → status (run cs new_response) ≡ final_status (run cs new_response).inner
status-run cs p = Agrees-status (run cs new_response) (Agrees-run cs new_response p Agrees-new)

size-call :
    (c : Call) (r : Response)
    → r.size ≡ length r.inner.body
    → (call c r).size ≡ length (call c r).inner.body
unfolding call
size-call (header code) r h = h
size-call (failure code e) r h = h
size-call (body b n) r h = omega (arith, length-append r.inner.body (take n b))
size-call flushed r h = h
size-call (copied b n) r h = omega (arith, length-append r.inner.body (take n b))
size-call (set k v) r h = h

size-run_from :
    (cs : List Call) (r : Response)
    → r.size ≡ length r.inner.body
    → (run cs r).size ≡ length (run cs r).inner.body
unfolding run
size-run_from [] r h = h
size-run_from (c ∷ cs) r h = size-run_from cs (call c r) (size-call c r h)

-- The recorded size is the number of bytes that the wrapped writer took, whichever way they came.
pub size-run :
    (cs : List Call) → (run cs new_response).size ≡ length (run cs new_response).inner.body
size-run cs = size-run_from cs new_response refl
