-- ===== src/Tests/ServingRuns.antt =====
-- Runs of the servers that `Run` starts, and the theorem at one; addresses that are dialled.
use rsync_proxy.Base.{
  ◌≡◌, refl, ◌≢◌, ◌⊎◌, Bool, true, false, none, some, [], ◌∷◌, ◌++◌, ◌==◌, if◌then◌else◌, Bytes,
  codes,
}
use rsync_proxy.Wire.Addresses.{
  HostPorts, host_and_port, missing_port, discovery_address, dial_context_tcp_or_unix,
  add_default_tcp_port,
}
use rsync_proxy.Listeners.{accepted, listener_closed, accept_failed, broken}
use rsync_proxy.Listeners.Run.{
  Part, http, tcp, tls, serve_closed, RunError, gone, Running, outcome, after_serving, hear,
  end_http, return_from, Step, hears, serve_ends, returns, start_run, Reach, start, next,
}
use rsync_proxy.Listeners.Run.Causes.{HasCause}
use rsync_proxy.Listeners.Run.Returns.{ReturnsWithin, run_returns, CanMove}

-- A connection, and then an error of `Accept`.
abbrev tcp_failed : Running
tcp_failed = hear tcp accept_failed (hear tcp (accepted 1) (start_run true))

tcp_failed-Reach : Reach tcp_failed
unfolding outcome
tcp_failed-Reach =
    next (next (start true) (hears tcp (accepted 1) (λ e. absurd (cc)) refl refl))
      (hears tcp accept_failed (λ e. absurd (cc)) refl refl)

run_returns_example :
    ((e : RunError) × (tcp_failed.result ≡ some e) × HasCause e tcp_failed)
    ⊎ ((tcp_failed.result ≡ none)
        × ((p : Part) → outcome p tcp_failed ≢ broken)
        × (CanMove tcp_failed
            ⊎ (((p : Part) → tcp_failed.phase p ≡ gone) × ((t : Running) → ¬ Step tcp_failed t))))
    ⊎ ((tcp_failed.result ≡ none) × ReturnsWithin 3 tcp_failed)
run_returns_example = run_returns tcp_failed-Reach

-- Without TLS, `Close` brings all goroutines to their end.
abbrev closed_all : Running
closed_all =
    return_from tcp
      (hear tcp listener_closed (return_from http (end_http serve_closed (start_run false))))

closed_all-Reach : Reach closed_all
unfolding outcome
closed_all-Reach =
    next
      (next
        (next (next (start false) (serve_ends serve_closed refl refl))
          (returns http refl (λ e. absurd (cc))))
        (hears tcp listener_closed (λ e. absurd (cc)) refl refl))
      (returns tcp refl (λ e. absurd (cc)))

closed_all_gone : (p : Part) → closed_all.phase p ≡ gone
unfolding outcome after_serving
closed_all_gone http = refl
closed_all_gone tcp = refl
closed_all_gone tls = refl

-- Addresses without brackets: the first colon is before the port.
has_colon : Bytes → Bool
has_colon [] = false
has_colon (c ∷ s) = let rest = has_colon s in if c == b':' then true else rest

abbrev plain_addresses : HostPorts
plain_addresses = record {
  split_host_port = λ addr. if has_colon addr then host_and_port else missing_port;
  join_host_port = λ host port. host ++ (codes ":" ++ port);
}

adds_port :
    discovery_address plain_addresses (codes "mirror")
    ≡ record { network = codes "tcp"; addr = codes "mirror:873" }
unfolding discovery_address dial_context_tcp_or_unix add_default_tcp_port has_colon
adds_port = refl

keeps_socket :
    discovery_address plain_addresses (codes "/run/rsyncd")
    ≡ record { network = codes "unix"; addr = codes "/run/rsyncd" }
unfolding discovery_address dial_context_tcp_or_unix add_default_tcp_port
keeps_socket = refl
