-- ===== src/Discovery/Upstreams.antt =====
-- pkg/server/server.go: the modules of an upstream that is configured, and of an address.
use rsync_proxy.Base.{
  Bool, false, List, [], ◌∷◌, if◌then◌else◌, Bytes, bytes_beq, sort_strings, pos,
}
use rsync_proxy.Discovery.{Found, found, failed, DiscoverError}
use rsync_proxy.Routing.{UpstreamConfig}

pub data Listed : Type 0 where
  listed : List Bytes → Listed
  unknown_upstream : Bytes → Listed
  discovery_failed : UpstreamConfig → DiscoverError → Listed

-- An upstream as `discoverModulesFromUpstream` finds it: a `Found` for each.
abbrev pub found_of : UpstreamConfig → Found → Listed
found_of u (found modules) = listed modules
found_of u (failed e) = discovery_failed u e

-- `ListUpstreamModules`, the loop over `s.upstreams`.
unfoldable pub list_upstream_modules :
    (UpstreamConfig → Found) → Bytes → Bool → List UpstreamConfig → Listed
list_upstream_modules discover name force_discover [] = unknown_upstream name
list_upstream_modules discover name force_discover (u ∷ us) =
    let rest = list_upstream_modules discover name force_discover us in
    if bytes_beq u.name name
    then if force_discover then found_of u (discover u) else listed (sort_strings u.modules)
    else rest

-- `DiscoverModulesWithProxyProtocol`
unfoldable pub discover_modules_with_proxy_protocol :
    (UpstreamConfig → Found) → Bytes → Bool → Found
discover_modules_with_proxy_protocol discover addr use_proxy_protocol = discover (record {
  name = addr;
  target = record { upstream = addr; addr = addr; use_proxy_protocol = use_proxy_protocol };
  modules = [];
  discover_modules = false;
  max_active_conns = pos 0;
  max_queued_conns = pos 0;
})

-- `DiscoverModules`
unfoldable discover_modules_of : (UpstreamConfig → Found) → Bytes → Found
unfolding discover_modules_with_proxy_protocol
discover_modules_of discover addr = discover_modules_with_proxy_protocol discover addr false
