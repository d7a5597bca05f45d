-- ===== src/Relay/Grant.antt =====
-- What `relay` does to an upstream, and when.
use rsync_proxy.Base.{
  ◌≡◌, refl, inl, inr, false, List, [], ◌∷◌, ◌++◌, Option-cases, Bytes, All, bytes_eq, pair_eq,
  nat_eq, lookup,
}
use rsync_proxy.Relay.Triples.{
  Does-block, Does, Any, Does-finally, Does-tell, Does-then, Does-bind, Does-if, Does-fail,
  Does-try_write_client, Does-write_client, Does-else,
}
use rsync_proxy.Queue.Channels.{Status}
use rsync_proxy.Relay.Effects.{Effect, touches_upstream}
use rsync_proxy.Relay.Script.{RelayError, no_queue, index_panic, Session, ◌>>◌, send_queue_notice}
use rsync_proxy.Relay.Outer.{IsQuiet, Does-Judgement, relay_J}
use rsync_proxy.Routing.{Target}
use rsync_proxy.Relay.{
  Setting, QueueEvent, told, minute, wait_turn, queue_up, serve_target, with_slot, relay,
}

abbrev KeepsAway : Effect → Type 0
KeepsAway e = touches_upstream e ≡ false

abbrev AnyError : RelayError → Type 0
AnyError e = Unit

abbrev Never : Unit {0} → Type 0
Never _ = ⊥

-- The handle of the queue never tells that there is room.
abbrev NeverGranted : List QueueEvent → Type 0
NeverGranted [] = Unit
NeverGranted (told status ∷ events) = (status.ok ≡ false) × NeverGranted events
NeverGranted (minute ∷ events) = NeverGranted events

wait_turn-Never :
    (events : List QueueEvent) (status : Status)
    → NeverGranted events
    → Does KeepsAway AnyError Never (wait_turn status events)
unfolding wait_turn
wait_turn-Never [] status h = Does-block KeepsAway AnyError Never
wait_turn-Never (told next ∷ events) status (h, hs) =
    Does-else KeepsAway AnyError Never next.ok _ _ h (
      Does-then KeepsAway AnyError Never _ _
        (Does-write_client KeepsAway AnyError _ send_queue_notice refl tt)
        (wait_turn-Never events next hs))
wait_turn-Never (minute ∷ events) status hs =
    Does-then KeepsAway AnyError Never _ _
      (Does-write_client KeepsAway AnyError _ send_queue_notice refl tt)
      (wait_turn-Never events status hs)

module _ (w : Setting) (waits : w.first_status.ok ≡ false) (never : NeverGranted w.events) where
  queue_up-Never :
      (target : Target) (name : Bytes) → Does KeepsAway AnyError Never (queue_up w target name)
  unfolding queue_up
  queue_up-Never target name = Does-else KeepsAway AnyError Never w.first_status.ok _ _ waits (
      Does-then KeepsAway AnyError Never _ _ (Does-tell KeepsAway AnyError _ refl) (
        Does-then KeepsAway AnyError Never _ _
          (Does-write_client KeepsAway AnyError _ send_queue_notice refl tt)
          (wait_turn-Never w.events w.first_status never)))

  with_slot_away :
      (target : Target) (name version : Bytes)
      → Does KeepsAway AnyError Any (with_slot w target name version)
  unfolding with_slot ◌>>◌
  with_slot_away target name version =
      Does-if KeepsAway AnyError Any w.first_status.full _ _
        (Does-then KeepsAway AnyError Any _ _ (Does-tell KeepsAway AnyError _ refl) (
          Does-then KeepsAway AnyError Any _ _ (Does-tell KeepsAway AnyError _ refl) (
            Does-then KeepsAway AnyError Any _ _ (Does-try_write_client KeepsAway AnyError _ refl)
              (Does-try_write_client KeepsAway AnyError _ refl))))
        (Does-bind KeepsAway AnyError Never Any _ _ (queue_up-Never target name)
          (λ _ never. absurd never))

  serve_target_away :
      (name version : Bytes) (target : Target)
      → Does KeepsAway AnyError Any (serve_target w target name version)
  unfolding serve_target
  serve_target_away name version target =
      Does-then KeepsAway AnyError Any _ _ (Does-tell KeepsAway AnyError _ refl)
        (elim (Option-cases (lookup target.upstream w.at_queue.upstream_queues)) [
          | inl missing ↦ rw missing (Does-fail KeepsAway AnyError Any no_queue tt)
          | inr (p, found) ↦ rw found (
              Does-then KeepsAway AnyError Any _ _ (Does-tell KeepsAway AnyError _ refl) (
                Does-finally KeepsAway AnyError Any _ _ (refl, tt)
                  (with_slot_away target name version)))
        ])

-- Unless the first status of the handle, or a later one, grants a place, a connection's run has
-- no effect that reaches an upstream: it dials none, writes to none, copies and counts nothing.
pub relay_waits_for_grant :
    (w : Setting) (s : Session)
    → w.first_status.ok ≡ false
    → NeverGranted w.events
    → (es : List Effect) × ((relay w s).1.effects ≡ s.effects ++ es)
      × All (λ e. touches_upstream e ≡ false) es
relay_waits_for_grant w s waits never =
    let run =
      relay_J IsQuiet (λ _ a b _. (a, b)) (Does KeepsAway AnyError Any)
        (Does-Judgement IsQuiet KeepsAway AnyError (λ _ q. q.0) (λ _ _. tt)) w
        (λ name version targets target _ _. serve_target_away w waits never name version target)
        (λ _ _ _ _. Does-fail KeepsAway AnyError Any index_panic tt)
        (λ i. ((refl, refl), (refl, refl))) in
    let (es, added, all, ends) = run.runs s in (es, added, all)
