-- ===== src/Tests/Start.antt =====
-- The theorem on the start of the program, with libraries that do as they should.
use spegel.Base.HostPort.{split_host_port, split_plain, split_checked}
use spegel.Base.{cut_last}
use spegel.Base.{◌≡◌, refl, ascii, str_eq, all, cut, has_prefix, false, none, some, [], ◌∷◌, ok}
use spegel.Base.Int.{pos}
use spegel.Base.Maps.{lookup}
use spegel.Base.Decimal.{value_from, is_digit}
use spegel.Oci.Containerd.Setup.{
  new_containerd, verify, verify_status_response, verify_config, split_list, split_from, has_path,
  with_content_path,
}
use spegel.Routing.P2p.{address_factory, parse_uint16, pick_addrs}
use spegel.Routing.P2p.Setup.{new_p2p_router, listen_multiaddrs}
use spegel.Registry.Setup.{new_registry}
use spegel.Command.{
  BootstrapConfig, RegistryCmd, Libraries, Started, registry_command, registry_opts,
  get_bootstrapper, http_bootstrapper,
}
use spegel.Command.Wiring.{IsWired, registry_command-IsWired}
use spegel.Tests.Peers.{addresses, listening, libp2p, libp2p-UsesFactory, router}
use spegel.Tests.Store.{runtime}

abbrev pub libraries : Libraries
libraries = record {
  runtime = ok runtime;
  get_clientset = λ path. none;
  listening = listening;
  addresses = addresses;
  libp2p = libp2p;
}

abbrev bootstrap_config : BootstrapConfig
bootstrap_config = record {
  bootstrap_kind = ascii "http";
  http_bootstrap_addr = ascii ":5002";
  http_bootstrap_peer = ascii "http://10.0.0.2:5002/id";
  kubeconfig_path = [];
  leader_election_name = [];
  leader_election_namespace = [];
}

abbrev pub args : RegistryCmd
args = record {
  bootstrap_config = bootstrap_config;
  blob_speed = some (pos 1024);
  containerd_registry_config_path = ascii "/etc/b";
  local_addr = ascii "localhost:30021";
  containerd_content_path = ascii "/content";
  router_addr = ascii "10.0.0.1:5001";
  registry_addr = ascii ":30021";
  registries = [];
  mirror_resolve_retries = 5;
  mirror_resolve_timeout = 1000000;
  resolve_latest_tag = false;
}

abbrev pub started : Started
started = record {
  oci_client = new_containerd (ascii "/etc/b") [] (with_content_path (ascii "/content") ∷ []);
  bootstrapper = http_bootstrapper (ascii ":5002") (ascii "http://10.0.0.2:5002/id");
  router = router;
  track_latest_tag = false;
  registry = record {
    throttler = some (pos 1024);
    local_addr = ascii "localhost:30021";
    resolve_retries = 5;
    resolve_timeout = 1000000;
    resolve_latest_tag = false;
  };
  server_addr = ascii ":30021";
}

pub is_started : registry_command libraries args ≡ ok started
unfolding registry_command get_bootstrapper new_containerd verify verify_status_response
    verify_config split_list split_from has_path lookup str_eq new_p2p_router listen_multiaddrs
    parse_uint16 all value_from cut address_factory pick_addrs has_prefix is_digit new_registry
    registry_opts split_host_port split_plain split_checked cut_last
is_started = refl

registry_command-IsWired_example : IsWired libraries args started
registry_command-IsWired_example =
    registry_command-IsWired libraries args started libp2p-UsesFactory is_started
