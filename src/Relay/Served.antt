-- ===== src/Relay/Served.antt =====
-- A connection in which nothing fails, from its first byte to its last effect.
use rsync_proxy.Base.{
  ℕ, ◌≡◌, refl, ap, ◌∙◌, ◌≢◌, Bool, true, false, some, List, [], ◌∷◌, ◌++◌, arith, ◌==◌,
  if◌then◌else◌, Bytes, codes, bytes_beq, has_prefix, length, length-append, bytes_eq, lookup,
}
use rsync_proxy.Relay.Script.{
  deferred, Session, done, ◌>>=◌, ◌>>◌, return, tell, tell_all, finally, write_client,
  write_upstream, read_client, read_upstream,
}
use rsync_proxy.Relay.Effects.{
  Effect, to_client, to_upstream, logged, conn_stored, conn_deleted, set_module, set_upstream,
  acquire_slot, release_slot, dialled, close_client, close_upstream, clear_deadlines,
  count_completed, count_module, starts, finishes, close_read_upstream,
}
use rsync_proxy.Routing.{Target}
use rsync_proxy.Wire.{Chunk, LineRead, read_line, rsyncd_version_prefix, rsyncd_server_version}
use rsync_proxy.Relay.{
  Setting, forward_motd, send_proxy_header, finish_copy, talk, connect, with_slot, queue_up,
  serve_target, serve_module, serve_request, send_server_motd, handshake, relay, pick_target,
}
use rsync_proxy.Relay.Texts.{drop_last, after_line_feed}

drop_last-snoc : (s : Bytes) (c : ℕ) → drop_last (s ++ c ∷ []) ≡ s
unfolding drop_last
drop_last-snoc [] c = refl
drop_last-snoc (a ∷ []) c = refl
drop_last-snoc (a ∷ b ∷ s) c = ap (λ k. a ∷ k) (drop_last-snoc (b ∷ s) c)

-- All writes succeed.
abbrev pub session : List Chunk → List Chunk → List Effect → Session
session client upstream effects = record {
  client_in = client;
  upstream_in = upstream;
  client_writes = [];
  upstream_writes = [];
  effects = effects;
}

-- What a served connection does, in order.
abbrev pub served_effects : Setting → Target → ℕ → Bytes → Bytes → List Effect
served_effects w target p name version =
    conn_stored w.index
    ∷ to_client rsyncd_server_version
    ∷ set_module name
    ∷ set_upstream target.upstream
    ∷ acquire_slot p
    ∷ dialled target.addr
    ∷ to_upstream version
    ∷ to_upstream (name ++ codes "\n")
    ∷ logged (starts name)
    ∷ clear_deadlines
    ∷ close_read_upstream
    ∷ close_client
    ∷ count_completed w.sent_bytes w.received_bytes
    ∷ count_module name target.upstream w.sent_bytes w.received_bytes
    ∷ logged (finishes name w.sent_bytes w.received_bytes)
    ∷ close_upstream
    ∷ release_slot p
    ∷ conn_deleted w.index
    ∷ close_client
    ∷ []

-- Nothing keeps the client of `w` from the target: a place is free, the upstream answers, there is
-- nothing more to tell the client, and both copies end, that from the upstream first.
pub record IsServed (w : Setting) (target : Target) (targets : List Target) (p : ℕ) (name : Bytes)
    : Type 0 where
  pub listed : lookup name w.at_lookup.modules ≡ some targets
  pub picked : pick_target w targets ≡ some target
  pub queue : lookup target.upstream w.at_queue.upstream_queues ≡ some p
  pub wanted : w.first_status.full ≡ false
  pub granted : w.first_status.ok ≡ true
  pub reachable : w.dial target.addr ≡ true
  pub direct : target.use_proxy_protocol ≡ false
  pub quiet : bytes_beq w.motd [] ≡ true
  pub one_ends : w.one_ends ≡ true
  pub both_end : w.both_end ≡ true
  pub upstream_first : w.received_first ≡ true

abbrev whole_line : Bytes → List Chunk → LineRead
whole_line line rest = record { line = line; failed = false; rest = rest }

talk_runs :
    (w : Setting) (target : Target) (targets : List Target) (p : ℕ) (name version answer : Bytes)
    (c u u' : List Chunk) (es : List Effect)
    → IsServed w target targets p name
    → read_line 256 u ≡ whole_line answer u'
    → has_prefix answer rsyncd_version_prefix ≡ true
    → after_line_feed answer answer ≡ []
    → talk w target name version (session c u es) ≡ (
      done tt,
      session c u' (
          (((((((es ++ to_upstream version ∷ []) ++ to_upstream (name ++ codes "\n") ∷ [])
                    ++ logged (starts name) ∷ [])
                  ++ clear_deadlines ∷ [])
                ++ close_read_upstream ∷ close_client ∷ [])
              ++ count_completed w.sent_bytes w.received_bytes ∷ [])
            ++ count_module name target.upstream w.sent_bytes w.received_bytes ∷ [])
          ++ logged (finishes name w.sent_bytes w.received_bytes) ∷ []),
    )
unfolding talk send_proxy_header forward_motd finish_copy ◌>>=◌ ◌>>◌ return tell tell_all
    write_upstream read_upstream write_client
talk_runs w target targets p name version answer c u u' es h answers known brief =
    rw (h.direct, answers, known, brief, h.one_ends, h.both_end, h.upstream_first) refl

not_one : (name : Bytes) → name ≢ [] → (length (name ++ b'\n' ∷ []) == 1) ≡ false
not_one [] ne = absurd (ne refl)
not_one (c ∷ name) ne = ground (arith, length-append name (b'\n' ∷ []))

if_true : {A : Type 0} (b : Bool) (x y : A) → b ≡ true → (if b then x else y) ≡ x
if_true b x y e = rw e refl

if_false : {A : Type 0} (b : Bool) (x y : A) → b ≡ false → (if b then x else y) ≡ y
if_false b x y e = rw e refl

module _ (w : Setting) (target : Target) (targets : List Target) (p : ℕ) (name version : Bytes)
    (h : IsServed w target targets p name) where
  connect_open :
      connect w target name version
      ≡ tell (dialled target.addr) >> finally (close_upstream ∷ []) (talk w target name version)
  unfolding connect
  connect_open = if_true (w.dial target.addr) _ _ h.reachable

  queue_up_passes : queue_up w target name ≡ return tt
  unfolding queue_up
  queue_up_passes = if_true w.first_status.ok _ _ h.granted

  with_slot_goes :
      with_slot w target name version ≡ queue_up w target name >> connect w target name version
  unfolding with_slot
  with_slot_goes = if_false w.first_status.full _ _ h.wanted

  serve_target_holds :
      serve_target w target name version
      ≡ tell (set_upstream target.upstream)
        >> (tell (acquire_slot p)
            >> finally (release_slot p ∷ []) (with_slot w target name version))
  unfolding serve_target
  serve_target_holds = rw h.queue refl

  serve_module_finds :
      serve_module w name version ≡ tell (set_module name) >> serve_target w target name version
  unfolding serve_module
  serve_module_finds = rw (h.listed, h.picked) refl

  send_server_motd_nothing : send_server_motd w ≡ return tt
  unfolding send_server_motd
  send_server_motd_nothing = if_true (bytes_beq w.motd []) _ _ h.quiet

  serve_request_asks :
      name ≢ []
      → serve_request w version (name ++ b'\n' ∷ [])
        ≡ send_server_motd w >> serve_module w name version
  unfolding serve_request
  serve_request_asks ne =
      if_false (length (name ++ b'\n' ∷ []) == 0) _ _
        (ground (arith, length-append name (b'\n' ∷ [])))
      ∙ ap (λ m. send_server_motd w >> m)
          (if_false (length (name ++ b'\n' ∷ []) == 1) _ _ (not_one name ne)
            ∙ ap (λ k. serve_module w k version) (drop_last-snoc name b'\n'))

  -- From the request on.
  request_runs :
      (answer : Bytes) (client u u' : List Chunk)
      → name ≢ []
      → read_line 256 u ≡ whole_line answer u'
      → has_prefix answer rsyncd_version_prefix ≡ true
      → after_line_feed answer answer ≡ []
      → deferred (conn_deleted w.index ∷ close_client ∷ []) (
          serve_request w version
            (name ++ b'\n' ∷ [])
            (session client u (conn_stored w.index ∷ to_client rsyncd_server_version ∷ [])))
        ≡ (done tt, session client u' (served_effects w target p name version))
  unfolding finally ◌>>=◌ ◌>>◌ return tell tell_all
  request_runs answer client u u' ne answers known brief =
      rw
        (
          serve_request_asks ne,
          send_server_motd_nothing,
          serve_module_finds,
          serve_target_holds,
          with_slot_goes,
          queue_up_passes,
          connect_open,
          talk_runs w target targets p name version answer client u u' _ h answers known brief,
        )
        refl

-- A client whose version and whose request for a module come as lines, and whom nothing keeps from
-- the target (the writes succeed too), is served to the end: the run returns without an error, the
-- place is taken before the upstream is dialled and given back after it is closed, the upstream gets
-- the version and then the request as the client sent them, and the transfer is counted once.
pub relay_serves :
    (w : Setting) (target : Target) (targets : List Target) (p : ℕ) (name version answer : Bytes)
    (client client' client'' u u' : List Chunk)
    → IsServed w target targets p name
    → name ≢ []
    → read_line 256 client ≡ whole_line version client'
    → has_prefix version rsyncd_version_prefix ≡ true
    → read_line 256 client' ≡ whole_line (name ++ b'\n' ∷ []) client''
    → read_line 256 u ≡ whole_line answer u'
    → has_prefix answer rsyncd_version_prefix ≡ true
    → after_line_feed answer answer ≡ []
    → relay w (session client u [])
      ≡ (done tt, session client'' u' (served_effects w target p name version))
unfolding relay handshake finally ◌>>=◌ ◌>>◌ tell tell_all read_client write_client
relay_serves w target targets p name version answer client client' client'' u u' h ne hello ours
      asks answers known brief =
    rw (hello, ours, asks)
      (request_runs w target targets p name version h answer client'' u u' ne answers known brief)
