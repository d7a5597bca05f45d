-- ===== src/Listeners/Run.antt =====
-- pkg/server/server.go: `Run`, as its goroutines and the loop over `errC` run beside each other.
-- What `Accept` and `http.Serve` return is given by the steps.
pub mod Causes
pub mod Returns
use rsync_proxy.Base.{
  ◌+◌, ◌-◌, ◌/◌, ◌<◌, ◌≡◌, ◌≢◌, Bool, true, false, not, Option, none, some, List, [], ◌∷◌, ◌++◌,
  if◌then◌else◌,
}
use rsync_proxy.Listeners.{Accepted, Served, still_accepting, ended, broken, run_rsync_server}

-- The three servers that `Run` starts.
pub data Part : Type 0 where
  http tcp tls : Part

-- What `http.Serve` returned: `net.ErrClosed` or another error.
pub data ServeEnd : Type 0 where
  serve_closed serve_failed : ServeEnd

-- "start http server", "accept rsync connection" and "accept tls rsync connection"
pub data RunError : Type 0 where
  start_http_server accept_rsync accept_tls_rsync : RunError

-- A goroutine: in its server, at `errC <- err`, or at its end.
pub data Phase : Type 0 where
  serving : Phase
  sends : RunError → Phase
  gone : Phase

-- `heard` is what `Accept` returned so far; `err_c` is the buffer of the channel, and `result` what
-- `Run` returned.
pub record Running : Type 0 where
  pub phase : Part → Phase
  pub heard : Part → List Accepted
  pub http_end : Option ServeEnd
  pub err_c : Option RunError
  pub result : Option RunError

abbrev pub part_beq : Part → Part → Bool
part_beq http http = true
part_beq tcp tcp = true
part_beq tls tls = true
part_beq p q = false

abbrev pub update {ℓ} : {A : Type ℓ} → Part → A → (Part → A) → Part → A
update p a f q = if part_beq q p then a else f q

abbrev pub serve_outcome : Option ServeEnd → Served
serve_outcome none = still_accepting
serve_outcome (some serve_closed) = ended
serve_outcome (some serve_failed) = broken

-- How a server stands; the rsync servers are `runRsyncServer`.
unfoldable pub outcome : Part → Running → Served
unfolding run_rsync_server
outcome http s = serve_outcome s.http_end
outcome tcp s = (run_rsync_server (s.heard tcp)).1
outcome tls s = (run_rsync_server (s.heard tls)).1

abbrev pub error_of : Part → RunError
error_of http = start_http_server
error_of tcp = accept_rsync
error_of tls = accept_tls_rsync

-- What a goroutine does when its server returns.
unfoldable pub after_serving : Part → Served → Phase
after_serving p still_accepting = serving
after_serving p ended = gone
after_serving p broken = sends (error_of p)

abbrev pub hear : Part → Accepted → Running → Running
hear p a s = record s { heard = update p (s.heard p ++ a ∷ []) s.heard }

abbrev pub end_http : ServeEnd → Running → Running
end_http e s = record s { http_end = some e }

abbrev pub return_from : Part → Running → Running
return_from p s = record s { phase = update p (after_serving p (outcome p s)) s.phase }

-- `errC <- err`, into the buffer.
abbrev pub send : Part → RunError → Running → Running
send p e s = record s { phase = update p gone s.phase; err_c = some e }

-- `err := <-errC`, and the return of it.
abbrev pub receive_error : RunError → Running → Running
receive_error e s = record s { err_c = none; result = some e }

pub data Step (s : Running) : Running → Type 0 where
  hears :
      (p : Part) (a : Accepted)
      → p ≢ http
      → s.phase p ≡ serving
      → outcome p s ≡ still_accepting
      → Step s (hear p a s)
  serve_ends : (e : ServeEnd) → s.phase http ≡ serving → s.http_end ≡ none → Step s (end_http e s)
  returns :
      (p : Part) → s.phase p ≡ serving → outcome p s ≢ still_accepting → Step s (return_from p s)
  sends_error :
      (p : Part) (e : RunError) → s.phase p ≡ sends e → s.err_c ≡ none → Step s (send p e s)
  receives_error : (e : RunError) → s.result ≡ none → s.err_c ≡ some e → Step s (receive_error e s)

-- `Run` of a server with a TLS listener or without.
abbrev pub start_run : Bool → Running
start_run with_tls = record {
  phase = update tls (if with_tls then serving else gone) (λ p. serving);
  heard = λ p. [];
  http_end = none;
  err_c = none;
  result = none;
}

pub data Reach : Running → Type 0 where
  start : (with_tls : Bool) → Reach (start_run with_tls)
  next : {s t : Running} → Reach s → Step s t → Reach t
