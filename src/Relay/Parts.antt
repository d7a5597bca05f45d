-- ===== src/Relay/Parts.antt =====
-- What the parts of `relay` can do, from the innermost out.
use rsync_proxy.Relay.{
  release_slot, acquire_slot, serve_target, with_slot, QueueEvent, told, minute, Setting, wait_turn,
  queue_up, finish_copy, send_proxy_header, forward_motd, talk, connect,
}
use rsync_proxy.Relay.Texts.{after_line_feed}
use rsync_proxy.Relay.Triples.{
  Does-try_write_client, Does, Any, Does-return, Does-fail, Does-block, Does-tell, Does-tell_all,
  Does-bind, Does-then, Does-if, Does-finally, Does-write_client, Does-write_upstream,
  Does-read_upstream,
}
use rsync_proxy.Relay.Effects.{
  is_entry, is_count, Effect, touches_upstream, is_slot, close_upstream, close_client,
  close_read_client, close_read_upstream,
}
use rsync_proxy.Base.{
  ℕ, ◌≡◌, refl, inl, inr, Bool, true, false, none, List, [], ◌∷◌, ◌++◌, if◌then◌else◌, Option-cases,
  Bytes, codes, bytes_beq, has_prefix, All, lookup, bytes_eq,
}
use rsync_proxy.Wire.{
  rsyncd_version_prefix, Header, header, refused, generate_proxy_protocol_header,
}
use rsync_proxy.Queue.Channels.{Status}
use rsync_proxy.Routing.{Target}
use rsync_proxy.Relay.Script.{
  RelayError, no_queue, index_panic, send_queue_notice, dial_failed, proxy_header, send_version_up,
  read_version_up, unknown_version_up, send_up_motd, send_module_up, fail, write_upstream,
}

-- The two errors that say the server's own state is at fault.
abbrev pub is_broken : RelayError → Bool
is_broken no_queue = true
is_broken index_panic = true
is_broken e = false

module _ (P : Effect → Type 0) (E : RelayError → Type 0)
    (errs : (e : RelayError) → is_broken e ≡ false → E e) where
  -- The wait in the queue only writes to the client.
  module _
      (quiet : (e : Effect)
        → touches_upstream e ≡ false
        → is_slot e ≡ false
        → is_entry e ≡ false
        → P e) where
    pub Does-wait_turn :
        (D : Unit {0} → Type 0) (events : List QueueEvent) (status : Status)
        → D tt
        → Does P E D (wait_turn status events)
    unfolding wait_turn
    Does-wait_turn D [] status d = Does-block P E D
    Does-wait_turn D (told next ∷ events) status d =
        Does-if P E D next.ok _ _ (Does-return P E D tt d) (
          Does-then P E D _ _
            (Does-write_client P E _ send_queue_notice (quiet _ refl refl refl) (errs _ refl))
            (Does-wait_turn D events next d))
    Does-wait_turn D (minute ∷ events) status d =
        Does-then P E D _ _
          (Does-write_client P E _ send_queue_notice (quiet _ refl refl refl) (errs _ refl))
          (Does-wait_turn D events status d)

    pub Does-queue_up :
        (w : Setting) (target : Target) (name : Bytes) → Does P E Any (queue_up w target name)
    unfolding queue_up
    Does-queue_up w target name =
        Does-if P E Any w.first_status.ok _ _ (Does-return P E Any tt tt) (
          Does-then P E Any _ _ (Does-tell P E _ (quiet _ refl refl refl)) (
            Does-then P E Any _ _
              (Does-write_client P E _ send_queue_notice (quiet _ refl refl refl) (errs _ refl))
              (Does-wait_turn Any w.events w.first_status tt)))

  -- What comes before the copies moves no slot and counts nothing.
  module _
      (plain : (e : Effect)
        → is_slot e ≡ false
        → is_count e ≡ false
        → is_entry e ≡ false
        → P e) where
    pub Does-send_proxy_header :
        (w : Setting) (target : Target) → Does P E Any (send_proxy_header w target)
    unfolding send_proxy_header
    Does-send_proxy_header w target =
        Does-if P E Any target.use_proxy_protocol _ _
          (sends (generate_proxy_protocol_header w.ip_string w.client w.upstream_addr))
          (Does-return P E Any tt tt)
      where
        sends :
            (h : Header)
            → Does P E Any (elim h [
              | header b ↦ write_upstream b proxy_header
              | refused e ↦ fail proxy_header
            ])
        sends (header b) =
            Does-write_upstream P E b proxy_header (plain _ refl refl refl) (errs _ refl)
        sends (refused e) = Does-fail P E Any proxy_header (errs _ refl)

    pub Does-forward_motd : (greeting : Bytes) → Does P E Any (forward_motd greeting)
    unfolding forward_motd
    Does-forward_motd greeting =
        Does-if P E Any (bytes_beq greeting []) _ _ (Does-return P E Any tt tt)
          (Does-write_client P E greeting send_up_motd (plain _ refl refl refl) (errs _ refl))

  -- Nothing in a slot takes or gives back one.
  module _ (inner : (e : Effect) → is_slot e ≡ false → is_entry e ≡ false → P e) where
    Does-finish_copy :
        (w : Setting) (target : Target) (name : Bytes) → Does P E Any (finish_copy w target name)
    unfolding finish_copy
    Does-finish_copy w target name =
        Does-if P E Any w.one_ends _ _
          (Does-then P E Any _ _ (Does-tell_all P E _ (closes w.received_first)) (
            Does-if P E Any w.both_end _ _
              (Does-then P E Any _ _ (Does-tell P E _ (inner _ refl refl)) (
                Does-then P E Any _ _ (Does-tell P E _ (inner _ refl refl))
                  (Does-tell P E _ (inner _ refl refl))))
              (Does-block P E Any)))
          (Does-block P E Any)
      where
        closes :
            (b : Bool)
            → All P (
                if b
                then close_read_upstream ∷ close_client ∷ []
                else close_read_client ∷ close_upstream ∷ [])
        closes true = (inner close_read_upstream refl refl, (inner close_client refl refl, tt))
        closes false = (inner close_read_client refl refl, (inner close_upstream refl refl, tt))

    pub Does-talk :
        (w : Setting) (target : Target) (name version : Bytes)
        → Does P E Any (talk w target name version)
    unfolding talk
    Does-talk w target name version =
        Does-then P E Any _ _ (Does-send_proxy_header (λ e h _ k. inner e h k) w target) (
          Does-then P E Any _ _
            (Does-write_upstream P E version send_version_up (inner _ refl refl) (errs _ refl))
            (Does-bind P E (λ _. Unit) Any _ _
              (Does-read_upstream P E read_version_up (errs _ refl))
              (λ answer _.
                Does-if P E Any (has_prefix answer rsyncd_version_prefix) _ _
                  (Does-then P E Any _ _
                    (Does-forward_motd (λ e h _ k. inner e h k) (after_line_feed answer answer))
                    (Does-then P E Any _ _
                      (Does-write_upstream P E (name ++ codes "\n") send_module_up
                        (inner _ refl refl) (errs _ refl))
                      (Does-then P E Any _ _ (Does-tell P E _ (inner _ refl refl)) (
                        Does-then P E Any _ _ (Does-tell P E _ (inner _ refl refl))
                          (Does-finish_copy w target name)))))
                  (Does-fail P E Any unknown_version_up (errs _ refl)))))

    pub Does-connect :
        (w : Setting) (target : Target) (name version : Bytes)
        → Does P E Any (connect w target name version)
    unfolding connect
    Does-connect w target name version =
        Does-if P E Any (w.dial target.addr) _ _
          (Does-then P E Any _ _ (Does-tell P E _ (inner _ refl refl))
            (Does-finally P E Any _ _ (inner _ refl refl, tt) (Does-talk w target name version)))
          (Does-then P E Any _ _ (Does-tell P E _ (inner _ refl refl))
            (Does-fail P E Any dial_failed (errs _ refl)))

    pub Does-with_slot :
        (w : Setting) (target : Target) (name version : Bytes)
        → Does P E Any (with_slot w target name version)
    unfolding with_slot
    Does-with_slot w target name version =
        Does-if P E Any w.first_status.full _ _
          (Does-then P E Any _ _ (Does-tell P E _ (inner _ refl refl)) (
            Does-then P E Any _ _ (Does-tell P E _ (inner _ refl refl)) (
              Does-then P E Any _ _ (Does-try_write_client P E _ (inner _ refl refl))
                (Does-try_write_client P E _ (inner _ refl refl)))))
          (Does-then P E Any _ _ (Does-queue_up (λ e _ h k. inner e h k) w target name)
            (Does-connect w target name version))

    pub Does-serve_target :
        (w : Setting) (target : Target) (name version : Bytes)
        → ((p : ℕ) → P (acquire_slot p) × P (release_slot p))
        → (lookup target.upstream w.at_queue.upstream_queues ≡ none → E no_queue)
        → Does P E Any (serve_target w target name version)
    unfolding serve_target
    Does-serve_target w target name version moves misses =
        Does-then P E Any _ _ (Does-tell P E _ (inner _ refl refl))
          (elim (Option-cases (lookup target.upstream w.at_queue.upstream_queues)) [
            | inl missing ↦ rw missing (Does-fail P E Any no_queue (misses missing))
            | inr (p, found) ↦ rw found (
                Does-then P E Any _ _ (Does-tell P E _ (moves p).0) (
                  Does-finally P E Any _ _ ((moves p).1, tt)
                    (Does-with_slot w target name version)))
          ])
