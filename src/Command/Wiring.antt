-- ===== src/Command/Wiring.antt =====
-- How the parts that `registryCommand` of main.go starts fit together.
use spegel.Base.HostPort.{split_host_port}
use spegel.Base.{
  ◌≡◌, refl, subst, Str, Option, none, some, [], ◌∷◌, map, Result, ok, err, bind_ok, ok_injective,
  Error,
}
use spegel.Oci.Containerd.Setup.{Containerd, Runtime, new_containerd, with_content_path, verify}
use spegel.Oci.Containerd.Verification.{IsVerified, verify-IsVerified}
use spegel.Routing.P2p.Setup.{new_p2p_router, UsesFactory, IsMade, new_p2p_router-IsMade}
use spegel.Base.Int.{ℤ}
use spegel.Registry.Handlers.Exchange.{Registry}
use spegel.Registry.Setup.{new_registry, with_options}
use spegel.Command.{
  RegistryCmd, Libraries, Started, registry_command, registry_opts, blob_speed_opts,
  get_bootstrapper, verified,
}

verified-ok :
    (made c : Containerd) (o : Option Error) → verified made o ≡ ok c → (o ≡ none) × (made ≡ c)
verified-ok made c none e = (refl, ok_injective e)
verified-ok made c (some x) e = cc

verify-reached :
    (runtime : Result Runtime) (c : Containerd)
    → verify runtime c ≡ none
    → (r : Runtime) × (runtime ≡ ok r) × IsVerified r c.registry_config_path
unfolding verify
verify-reached (err e) c h = cc
verify-reached (ok r) c h = (r, refl, (verify-IsVerified r c).0 h)

-- What was started, by the arguments and the libraries.
pub record IsWired (lib : Libraries) (args : RegistryCmd) (st : Started) : Type 0 where
  pub runtime : Runtime
  pub host : Str
  pub port : Str
  pub reached : lib.runtime ≡ ok runtime
  pub accepted : IsVerified runtime args.containerd_registry_config_path
  pub listens : split_host_port st.server_addr ≡ ok (host, port)
  pub router_made : IsMade lib.addresses port st.router
  pub same_latest_tag : st.registry.resolve_latest_tag ≡ st.track_latest_tag
  pub local_addr : st.registry.local_addr ≡ args.local_addr
  pub resolve_retries : st.registry.resolve_retries ≡ args.mirror_resolve_retries
  pub resolve_timeout : st.registry.resolve_timeout ≡ args.mirror_resolve_timeout
  pub throttler : st.registry.throttler ≡ args.blob_speed

with_options-blob_speed_opts :
    (speed : Option ℤ) (r : Registry)
    → r.throttler ≡ none
    → let s = with_options (blob_speed_opts speed) r in
      (s.resolve_latest_tag ≡ r.resolve_latest_tag)
      × (s.local_addr ≡ r.local_addr)
      × (s.resolve_retries ≡ r.resolve_retries)
      × (s.resolve_timeout ≡ r.resolve_timeout)
      × (s.throttler ≡ speed)
with_options-blob_speed_opts none r h = (refl, refl, refl, refl, h)
with_options-blob_speed_opts (some speed) r h = (refl, refl, refl, refl, refl)

new_registry-opts :
    (args : RegistryCmd)
    → let r = new_registry (registry_opts args) in
      (r.resolve_latest_tag ≡ args.resolve_latest_tag)
      × (r.local_addr ≡ args.local_addr)
      × (r.resolve_retries ≡ args.mirror_resolve_retries)
      × (r.resolve_timeout ≡ args.mirror_resolve_timeout)
      × (r.throttler ≡ args.blob_speed)
unfolding new_registry registry_opts
new_registry-opts args = with_options-blob_speed_opts args.blob_speed _ refl

-- If the host announces what the factory of addresses returns: when the registry is started,
-- containerd was reached and accepted with the path of the mirror configuration; the router has
-- one address and tells the port that the registry's server listens on; the tracking and the
-- registry agree on the latest tag; and the registry has the local address, the retries, the
-- timeout and the throttling at the speed that were asked for.
pub registry_command-IsWired :
    (lib : Libraries) (args : RegistryCmd) (st : Started)
    → UsesFactory lib.libp2p
    → registry_command lib args ≡ ok st
    → IsWired lib args st
unfolding registry_command new_containerd
registry_command-IsWired lib args st uses e =
    let made =
      new_containerd args.containerd_registry_config_path (map (λ u. u.host) args.registries)
        (with_content_path args.containerd_content_path ∷ []) in
    let (c, ec, e1) = bind_ok (verified made (verify lib.runtime made)) _ st e in
    let (parts, ep, e2) = bind_ok (split_host_port args.registry_addr) _ st e1 in
    let (boot, eb, e3) =
      bind_ok (get_bootstrapper lib.get_clientset args.bootstrap_config) _ st e2 in
    let (router, er, e4) =
      bind_ok (new_p2p_router lib.listening lib.addresses lib.libp2p args.router_addr parts.1) _ st
        e3 in
    let (clean, same) = verified-ok made c (verify lib.runtime made) ec in
    let (runtime, reached, accepted) = verify-reached lib.runtime made clean in
    let (latest, local, retries, timeout, throttler) = new_registry-opts args in
    let started = ok_injective e4 in
    subst (IsWired lib args) started (record {
      runtime = runtime;
      host = parts.0;
      port = parts.1;
      reached = reached;
      accepted = accepted;
      listens = ep;
      router_made =
          new_p2p_router-IsMade lib.listening lib.addresses lib.libp2p args.router_addr parts.1
            router uses er;
      same_latest_tag = latest;
      local_addr = local;
      resolve_retries = retries;
      resolve_timeout = timeout;
      throttler = throttler;
    })
