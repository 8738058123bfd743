-- ===== src/Registry/Requests/Clients.antt =====
-- The address of a client that is logged: `getClientIP` of pkg/registry/registry.go.
use spegel.Base.{◌≡◌, ◌≢◌, refl, Str, [], ◌∷◌, ◌++◌}
use spegel.Base.Cuts.{Lacks, cut-Lacks, cut-found}
use spegel.Base.HostPort.{IsBare, split_host_port-bare}
use spegel.Registry.Handlers.Exchange.{Request}
use spegel.Registry.Requests.{get_client_ip}

-- The first of several proxies.
pub get_client_ip-first :
    (req : Request) (c : Str) (rest : Str)
    → c ≢ []
    → Lacks b',' c
    → req.forwarded_for ≡ c ++ b',' ∷ rest
    → get_client_ip req ≡ c
unfolding get_client_ip
get_client_ip-first req [] rest some_client h e = absurd (some_client refl)
get_client_ip-first req (b ∷ c) rest some_client h e = rw (e, cut-found b',' (b ∷ c) rest h)

-- The only proxy.
pub get_client_ip-only :
    (req : Request) (c : Str)
    → c ≢ []
    → Lacks b',' c
    → req.forwarded_for ≡ c
    → get_client_ip req ≡ c
unfolding get_client_ip
get_client_ip-only req [] some_client h e = absurd (some_client refl)
get_client_ip-only req (b ∷ c) some_client h e = rw (e, cut-Lacks b',' (b ∷ c) h)

-- The connection itself, without a proxy.
pub get_client_ip-direct :
    (req : Request) (host port : Str)
    → req.forwarded_for ≡ []
    → IsBare host
    → IsBare port
    → req.remote_addr ≡ host ++ b':' ∷ port
    → get_client_ip req ≡ host
unfolding get_client_ip
get_client_ip-direct req host port none_forwarded h p e =
    rw (none_forwarded, e, split_host_port-bare host port h p)
