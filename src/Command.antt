-- ===== src/Command.antt =====
-- The start of the program: main.go.
--
-- The servers, the signals and the group of goroutines are not modelled: what is started is recorded.
pub mod Wiring
pub mod Serving
use spegel.Base.{
  ℕ, Str, ascii, str_eq, Bool, Option, none, some, List, [], ◌∷◌, ◌++◌, map, Result, ok, err, Error,
  error, errorf, ◌>>=◌, if◌then◌else◌,
}
use spegel.Base.HostPort.{split_host_port}
use spegel.Base.Int.{ℤ}
use spegel.Oci.MirrorConfig.Files.{FileSystem, Toml}
use spegel.Oci.MirrorConfig.{RegistryUrl, Exit, add_mirror_configuration}
use spegel.Oci.Containerd.Setup.{Containerd, Runtime, new_containerd, with_content_path, verify}
use spegel.Routing.P2p.Network.{Addresses}
use spegel.Routing.P2p.Setup.{Listening, Libp2p, P2pRouter, new_p2p_router}
use spegel.Registry.Handlers.Exchange.{Registry}
use spegel.Registry.Setup.{
  new_registry, with_resolve_timeout, with_resolve_retries, with_resolve_latest_tag,
  with_local_address, with_blob_speed,
}

pub record ConfigurationCmd : Type 0 where
  pub containerd_registry_config_path : Str
  pub registries : List RegistryUrl
  pub mirror_registries : List RegistryUrl
  pub resolve_tags : Bool
  pub append_mirrors : Bool

pub record BootstrapConfig : Type 0 where
  pub bootstrap_kind : Str
  pub http_bootstrap_addr : Str
  pub http_bootstrap_peer : Str
  pub kubeconfig_path : Str
  pub leader_election_name : Str
  pub leader_election_namespace : Str

pub record RegistryCmd : Type 0 where
  pub bootstrap_config : BootstrapConfig
  pub blob_speed : Option ℤ
  pub containerd_registry_config_path : Str
  pub local_addr : Str
  pub containerd_content_path : Str
  pub router_addr : Str
  pub registry_addr : Str
  pub registries : List RegistryUrl
  pub mirror_resolve_timeout : ℕ
  pub mirror_resolve_retries : ℕ
  pub resolve_latest_tag : Bool

-- Of a subcommand that was not given, there is none.
pub record Arguments : Type 0 where
  pub configuration : Option ConfigurationCmd
  pub registry : Option RegistryCmd

-- `NewHTTPBootstrapper` and `NewKubernetesBootstrapper`, with their arguments.
pub data Bootstrapper : Type 0 where
  http_bootstrapper kubernetes_bootstrapper : Str → Str → Bootstrapper

abbrev pub kubernetes_bootstrapper_of : BootstrapConfig → Option Error → Result Bootstrapper
kubernetes_bootstrapper_of cfg (some e) = err e
kubernetes_bootstrapper_of cfg none =
    ok (kubernetes_bootstrapper cfg.leader_election_namespace cfg.leader_election_name)

-- `getBootstrapper`, where `get_clientset` is the one of internal/kubernetes, by its error.
unfoldable pub get_bootstrapper : (Str → Option Error) → BootstrapConfig → Result Bootstrapper
get_bootstrapper get_clientset cfg =
    if str_eq cfg.bootstrap_kind (ascii "http")
    then ok (http_bootstrapper cfg.http_bootstrap_addr cfg.http_bootstrap_peer)
    else if str_eq cfg.bootstrap_kind (ascii "kubernetes")
    then kubernetes_bootstrapper_of cfg (get_clientset cfg.kubeconfig_path)
    else err (errorf "unknown bootstrap kind %s" (cfg.bootstrap_kind ∷ []))

-- What the libraries do at the start.
pub record Libraries : Type 0 where
  pub runtime : Result Runtime
  pub get_clientset : Str → Option Error
  pub listening : Listening
  pub addresses : Addresses
  pub libp2p : Libp2p

-- What `registryCommand` starts: the router with its bootstrapper, the tracking by its last argument,
-- and the registry with the address that its server listens on.
pub record Started : Type 0 where
  pub oci_client : Containerd
  pub bootstrapper : Bootstrapper
  pub router : P2pRouter
  pub track_latest_tag : Bool
  pub registry : Registry
  pub server_addr : Str

abbrev pub blob_speed_opts : Option ℤ → List (Registry → Registry)
blob_speed_opts none = []
blob_speed_opts (some speed) = with_blob_speed speed ∷ []

-- `registryOpts`, less the log.
unfoldable pub registry_opts : RegistryCmd → List (Registry → Registry)
registry_opts args =
    (with_resolve_latest_tag args.resolve_latest_tag
      ∷ with_resolve_retries args.mirror_resolve_retries
      ∷ with_resolve_timeout args.mirror_resolve_timeout
      ∷ with_local_address args.local_addr
      ∷ [])
    ++ blob_speed_opts args.blob_speed

abbrev pub verified : Containerd → Option Error → Result Containerd
verified c none = ok c
verified c (some e) = err e

-- `registryCommand`, up to the waiting.
unfoldable pub registry_command : Libraries → RegistryCmd → Result Started
unfolding registry_opts
registry_command lib args =
    let made =
      new_containerd args.containerd_registry_config_path (map (λ u. u.host) args.registries)
        (with_content_path args.containerd_content_path ∷ []) in
    do
      oci_client ← verified made (verify lib.runtime made)
      parts ← split_host_port args.registry_addr
      bootstrapper ← get_bootstrapper lib.get_clientset args.bootstrap_config
      router ← new_p2p_router lib.listening lib.addresses lib.libp2p args.router_addr parts.1
      ok (record {
        oci_client = oci_client;
        bootstrapper = bootstrapper;
        router = router;
        track_latest_tag = args.resolve_latest_tag;
        registry = new_registry (registry_opts args);
        server_addr = args.registry_addr;
      })

unfoldable pub configuration_command :
    (fs : FileSystem) → Toml → ConfigurationCmd → fs.State → Exit fs.State
configuration_command fs toml args s =
    add_mirror_configuration fs toml args.containerd_registry_config_path args.registries
      args.mirror_registries args.resolve_tags args.append_mirrors s

pub data Ending (S : Type 0) : Type 0 where
  configured : Exit S → Ending S
  served : Result Started → Ending S
  refused : Error → Ending S

-- `run`
unfoldable pub run : Libraries → (fs : FileSystem) → Toml → Arguments → fs.State → Ending fs.State
run lib fs toml args s = elim args.configuration [
  | some cmd ↦ configured (configuration_command fs toml cmd s)
  | none ↦ elim args.registry [
    | some cmd ↦ served (registry_command lib cmd)
    | none ↦ refused (error "unknown subcommand")
  ]
]
