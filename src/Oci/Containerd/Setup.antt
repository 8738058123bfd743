-- ===== src/Oci/Containerd/Setup.antt =====
-- The rest of the client of pkg/oci/containerd.go: how it is made, how it verifies containerd, its
-- blobs, and the client as the interface of pkg/oci/oci.go.
use spegel.Base.{
  Str, ascii, str_eq, is_empty, Bool, true, false, not, Option, none, some, List, [], ◌∷◌, ◌++◌,
  map, Result, ok, err, Error, error, errorf, ◌>>=◌, ◌==◌, if◌then◌else◌,
}
use spegel.Base.Maps.{Map, lookup}
use spegel.Base.Join.{path_join}
use spegel.Oci.Client.{Client}
use spegel.Oci.Containerd.Backend.{Services, bare}
use spegel.Oci.Containerd.{list_images, all_identifiers, resolve, size, get_manifest}

-- `Containerd`, less the client, which is a parameter of its operations.
pub record Containerd : Type 0 where
  pub content_path : Str
  pub list_filter : Str
  pub event_filter : Str
  pub registry_config_path : Str

-- `strings.ReplaceAll(s, ".", …)` with two backslashes before each dot.
unfoldable pub escape_dots : Str → Str
escape_dots [] = []
escape_dots (c ∷ s) =
    let rest = escape_dots s in if c == b'.' then b'\\' ∷ b'\\' ∷ b'.' ∷ rest else c ∷ rest

-- `strings.Join(parts, sep)`
unfoldable pub join_with : Str → List Str → Str
join_with sep [] = []
join_with sep (p ∷ []) = p
join_with sep (p ∷ q ∷ ps) = p ++ (sep ++ join_with sep (q ∷ ps))

-- `createFilters`, by the hosts of the registries.
unfoldable pub create_filters : List Str → Str × Str
unfolding escape_dots join_with
create_filters hosts =
    let list_filter =
      ascii "name~=\"^(" ++ (join_with (ascii "|") (map escape_dots hosts) ++ ascii ")/\"") in
    (
      list_filter,
      ascii "topic~=\"/images/create|/images/update|/images/delete\",event." ++ list_filter,
    )

-- The loop over the options.
abbrev pub with_options : List (Containerd → Containerd) → Containerd → Containerd
with_options [] c = c
with_options (opt ∷ opts) c = with_options opts (opt c)

-- `NewContainerd`
unfoldable pub new_containerd : Str → List Str → List (Containerd → Containerd) → Containerd
unfolding create_filters
new_containerd registry_config_path hosts opts =
    let filters = create_filters hosts in
    with_options opts (record {
      content_path = [];
      list_filter = filters.0;
      event_filter = filters.1;
      registry_config_path = registry_config_path;
    })

-- `WithContentPath`
abbrev pub with_content_path : Str → Containerd → Containerd
with_content_path path c = record c { content_path = path }

-- What the status of the runtime says of containerd's configuration.
pub record Config : Type 0 where
  pub config_path : Str
  pub discard_unpacked_layers : Bool

-- What `Verify` uses: `IsServing`, `Status` by its map of information, and the decoding of that.
pub record Runtime : Type 0 where
  pub is_serving : Result Bool
  pub status : Result (Map Str)
  pub unmarshal_config : Str → Result Config

-- `filepath.SplitList`
unfoldable pub split_from : Str → Str → List Str
split_from part [] = part ∷ []
split_from part (c ∷ s) =
    let here = split_from [] s in
    let longer = split_from (part ++ c ∷ []) s in if c == b':' then part ∷ here else longer

unfoldable pub split_list : Str → List Str
unfolding split_from
split_list s = if is_empty s then [] else split_from [] s

-- The loop of `verifyStatusResponse`.
unfoldable pub has_path : Str → List Str → Bool
has_path config_path [] = false
has_path config_path (path ∷ paths) =
    let rest = has_path config_path paths in if not (str_eq path config_path) then rest else true

unfoldable pub verify_config : Config → Str → Option Error
verify_config cfg config_path =
    if cfg.discard_unpacked_layers
    then some (error "Containerd discard unpacked layers cannot be enabled")
    else if is_empty cfg.config_path
    then some (
        error
          "Containerd registry config path needs to be set for mirror configuration to take effect")
    else if has_path config_path (split_list cfg.config_path)
    then none
    else some (
        errorf
          "Containerd registry config path is %s but needs to contain path %s for mirror configuration to take effect"
          (cfg.config_path ∷ config_path ∷ []))

abbrev pub verify_decoded : Result Config → Str → Option Error
verify_decoded (err e) config_path = some e
verify_decoded (ok cfg) config_path = verify_config cfg config_path

abbrev pub verify_found : Runtime → Str → Option Str → Option Error
verify_found r config_path none = some (error "could not get config data from info response")
verify_found r config_path (some str) = verify_decoded (r.unmarshal_config str) config_path

-- `verifyStatusResponse`
unfoldable pub verify_status_response : Runtime → Map Str → Str → Option Error
verify_status_response r info config_path =
    verify_found r config_path (lookup (ascii "config") info)

abbrev pub verify_status : Runtime → Str → Result (Map Str) → Option Error
verify_status r config_path (err e) = some e
verify_status r config_path (ok info) = verify_status_response r info config_path

abbrev pub verify_serving : Runtime → Str → Result Bool → Option Error
verify_serving r config_path (err e) = some e
verify_serving r config_path (ok false) = some (error "could not reach Containerd service")
verify_serving r config_path (ok true) = verify_status r config_path r.status

-- `Verify`
unfoldable pub verify : Result Runtime → Containerd → Option Error
unfolding verify_status_response
verify (err e) c = some e
verify (ok r) c = verify_serving r c.registry_config_path r.is_serving

-- The parts of a digest, and `os.Open` by the bytes of the file.
pub record Files : Type 0 where
  pub algorithm : Str → Str
  pub encoded : Str → Str
  pub open_file : Str → Result Str

-- `GetBlob`, by the bytes that its reader yields.
unfoldable pub get_blob : Files → Result Services → Containerd → Str → Result Str
get_blob files client c dgst =
    if not (is_empty c.content_path)
    then files.open_file (
        path_join (c.content_path ∷ ascii "blobs" ∷ files.algorithm dgst ∷ files.encoded dgst ∷ []))
    else client >>= (λ s. s.reader_at (bare dgst))

-- The methods that pkg/oci/oci.go names.
unfoldable pub containerd_client : Files → Result Services → Containerd → Client
unfolding get_blob
containerd_client files client c = record {
  list_images = list_images client c.list_filter;
  all_identifiers = all_identifiers client;
  resolve = resolve client;
  size = size client;
  get_manifest = get_manifest client;
  get_blob = get_blob files client c;
}
