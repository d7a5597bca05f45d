-- ===== src/Server/Settings.antt =====
-- pkg/server/config.go: the structs of a configuration.
use rsync_proxy.Base.{Bool, List, Bytes, ℤ}

-- `Upstream` of config.go
pub record Upstream : Type 0 where
  pub address : Bytes
  pub modules : List Bytes
  pub discover_modules : Bool
  pub use_proxy_protocol : Bool
  pub max_active_conns : ℤ
  pub max_queued_conns : ℤ

-- `ProxySettings`
pub record ProxySettings : Type 0 where
  pub listen : Bytes
  pub listen_tls : Bytes
  pub listen_http : Bytes
  pub motd : Bytes
  pub access_log : Bytes
  pub error_log : Bytes
  pub tls_cert_file : Bytes
  pub tls_key_file : Bytes

-- `Config`
pub record Config : Type 0 where
  pub proxy : ProxySettings
  pub upstreams : List (Bytes × Upstream)
