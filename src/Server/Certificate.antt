-- ===== src/Server/Certificate.antt =====
-- The certificate that TLS connections are served with, over the loads of a configuration.
use rsync_proxy.Base.{
  ℕ, ◌≡◌, refl, sym, ap, ◌∙◌, ◌≢◌, inl, inr, Bool, true, false, Option, none, [], arith,
  Option-cases, bytes_beq,
}
use rsync_proxy.Server.Load.{load_config-failed}
use rsync_proxy.Server.{
  Server, World, Checked, good, bad, check_tls, open_logs, install, load_config,
}
use rsync_proxy.Server.Settings.{Config}

-- `getTLSCertificate`; `none` is its error, "tls certificate is not configured".
unfoldable pub get_tls_certificate : Server → Option ℕ
get_tls_certificate s = s.tls_certificate

-- A server with a TLS listener has a certificate for it.
abbrev pub IsCertified : Server → Type 0
IsCertified s = s.tls_listener ≡ true → get_tls_certificate s ≢ none

-- A server that is to listen with TLS has one.
abbrev pub IsPrepared : Server → Type 0
IsPrepared s = bytes_beq s.tls_listen_addr [] ≡ false → get_tls_certificate s ≢ none

check_tls-set :
    (w : World) (c : Config) (s : Server) (o : Option ℕ)
    → bytes_beq c.proxy.listen_tls [] ≡ false
    → check_tls w c s ≡ good o
    → o ≢ none
unfolding check_tls
check_tls-set w c s o h e = ground arith

check_tls-listens :
    (w : World) (c : Config) (s : Server) (o : Option ℕ)
    → s.tls_listener ≡ true
    → check_tls w c s ≡ good o
    → o ≢ none
unfolding check_tls
check_tls-listens w c s o h e = ground arith

-- What a load leaves of the listener, and what it sets without an error.
load_config-listener :
    (w : World) (c : Config) (open_log : Bool) (s : Server)
    → (load_config w c open_log s).0.tls_listener ≡ s.tls_listener
unfolding load_config open_logs install
load_config-listener w c open_log s = ground arith

load_config-certificate :
    (w : World) (c : Config) (open_log : Bool) (s : Server) (cert : Option ℕ)
    → check_tls w c s ≡ good cert
    → (load_config w c open_log s).1 ≡ none
    → (load_config w c open_log s).0.tls_certificate ≡ cert
unfolding load_config open_logs install
load_config-certificate w c open_log s cert checks e = ground arith

load_config-address :
    (w : World) (c : Config) (open_log : Bool) (s : Server)
    → s.tls_listen_addr ≡ []
    → (load_config w c open_log s).1 ≡ none
    → (load_config w c open_log s).0.tls_listen_addr ≡ c.proxy.listen_tls
unfolding load_config open_logs install
load_config-address w c open_log s unset e = rw unset (ground (arith, unset))

load_config-checks :
    (w : World) (c : Config) (open_log : Bool) (s : Server)
    → (load_config w c open_log s).1 ≡ none
    → (cert : Option ℕ) × (check_tls w c s ≡ good cert)
unfolding load_config
load_config-checks w c open_log s e = checked (check_tls w c s) refl
  where
    checked : (r : Checked (Option ℕ)) → check_tls w c s ≡ r → (cert : Option ℕ) × (r ≡ good cert)
    checked (good cert) is = (cert, refl)
    checked (bad x) is = absurd (ground arith)

-- The first load prepares the server for its listener.
pub load_config-IsPrepared :
    (w : World) (c : Config) (open_log : Bool) (s : Server)
    → s.tls_listen_addr ≡ []
    → (load_config w c open_log s).1 ≡ none
    → IsPrepared (load_config w c open_log s).0
unfolding get_tls_certificate
load_config-IsPrepared w c open_log s unset e set missing =
    let (cert, checks) = load_config-checks w c open_log s e in
    check_tls-set w c s cert
      (ap (λ a. bytes_beq a []) (sym (load_config-address w c open_log s unset e)) ∙ set) checks
      (sym (load_config-certificate w c open_log s cert checks e) ∙ missing)

-- Each later load, with an error or without, keeps a certificate for the listener.
pub load_config-IsCertified :
    (w : World) (c : Config) (open_log : Bool) (s : Server)
    → IsCertified s
    → IsCertified (load_config w c open_log s).0
unfolding get_tls_certificate
load_config-IsCertified w c open_log s h listens missing =
    let before = sym (load_config-listener w c open_log s) ∙ listens in
    elim (Option-cases (load_config w c open_log s).1) [
      | inr (x, failed) ↦
          h before (sym (ap (λ v. v.5) (load_config-failed w c open_log s x failed)) ∙ missing)
      | inl e ↦
          let (cert, checks) = load_config-checks w c open_log s e in
          check_tls-listens w c s cert before checks
            (sym (load_config-certificate w c open_log s cert checks e) ∙ missing)
    ]
