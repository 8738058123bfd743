-- ===== src/Oci/Containerd/Connecting.antt =====
-- `Client()` of pkg/oci/containerd.go, which keeps the client that it made: why the operations of
-- Oci/Containerd take one client as an argument.
use spegel.Base.{
  ok_injective, ◌∙◌, ℕ, zero, suc, ◌≡◌, refl, ap, Option, none, some, List, [], ◌∷◌, Result, ok,
  err,
}

-- What `clientGetter` returned is kept, unless it failed.
abbrev keep_client : {C S : Type 0} → Result C × S → Result C × (Option C × S)
keep_client (ok c, s) = (ok c, (some c, s))
keep_client (err e, s) = (err e, (none, s))

-- `Client`, over the field `client` and the state of what `clientGetter` connects to.
unfoldable pub get_client :
    {C S : Type 0} → (S → Result C × S) → Option C × S → Result C × (Option C × S)
get_client client_getter (some c, s) = (ok c, (some c, s))
get_client client_getter (none, s) = keep_client (client_getter s)

-- So many calls, one after another.
abbrev client_calls :
    {C S : Type 0} → (S → Result C × S) → ℕ → Option C × S → List (Result C) × (Option C × S)
client_calls client_getter zero st = ([], st)
client_calls client_getter (suc n) st =
    let (r, st') = get_client client_getter st in
    let (rs, st'') = client_calls client_getter n st' in (r ∷ rs, st'')

abbrev replicate : {A : Type 0} → ℕ → A → List A
replicate zero a = []
replicate (suc n) a = a ∷ replicate n a

client_calls-some :
    {C S : Type 0} (client_getter : S → Result C × S) (n : ℕ) (c : C) (s : S)
    → client_calls client_getter n (some c, s) ≡ (replicate n (ok c), (some c, s))
unfolding get_client
client_calls-some client_getter zero c s = refl
client_calls-some client_getter (suc n) c s = rw (client_calls-some client_getter n c s) refl

keep_client-ok :
    {C S : Type 0} (r : Result C × S) (c : C)
    → (keep_client r).0 ≡ ok c
    → (s : S) × ((keep_client r).1 ≡ (some c, s))
keep_client-ok (ok d, s) c h = (s, ap (λ x. (some x, s)) (ok_injective h))
keep_client-ok (err e, s) c h = cc

-- Once Client returned a client, as it did when the start verified containerd, every later call returns
-- the same one, and nothing is connected again.
pub client_calls-get_client :
    {C S : Type 0} (client_getter : S → Result C × S) (st : Option C × S) (c : C) (n : ℕ)
    → (get_client client_getter st).0 ≡ ok c
    → let then_kept = (get_client client_getter st).1 in
      client_calls client_getter n then_kept ≡ (replicate n (ok c), then_kept)
unfolding get_client
client_calls-get_client client_getter (some d, s) c n h =
    client_calls-some client_getter n d s
    ∙ ap (λ x. (replicate n (ok x), (some d, s))) (ok_injective h)
client_calls-get_client client_getter (none, s) c n h =
    let (s', e) = keep_client-ok (client_getter s) c h in
    rw e (client_calls-some client_getter n c s')
