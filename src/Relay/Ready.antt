-- ===== src/Relay/Ready.antt =====
-- When `relay` finds what it needs in the state of the server.
use rsync_proxy.Base.{
  ℕ, ◌^◌, ◌<◌, ◌≡◌, refl, sym, ap, subst, ◌∙◌, Bool, none, some, List, [], ◌∷◌, Memᴰ, arith, Bytes,
  length, get_elem?, get_elem?-lt, All, bytes_eq, pair_eq, nat_eq, lookup, lookup-All,
}
use mathlib.Core.Option.{some-injective}
use rsync_proxy.Relay.Effects.{Effect}
use rsync_proxy.Relay.Script.{RelayError, Outcome, failed, Session}
use rsync_proxy.Relay.Triples.{Ends, Does, Any}
use rsync_proxy.Relay.Parts.{Does-serve_target}
use rsync_proxy.Relay.Outer.{IsQuiet, IsOrdinary, Does-Judgement, relay_J}
use rsync_proxy.Routing.{Target, choose_target_by_client_ip, resolve_upstreams}
use rsync_proxy.Routing.Choice.{choose-lt}
use rsync_proxy.Routing.Targets.{lookup-build_module_targets, targets_of, if_any}
use rsync_proxy.Server.{Server, World, load_config, install}
use rsync_proxy.Server.Settings.{Config}
use rsync_proxy.Server.Queues.{HasQueues, load_config-HasQueues, load_config-installs}
use rsync_proxy.Relay.{Setting, pick_target, relay}

abbrev AnyEffect : Effect → Type 0
AnyEffect e = Unit

-- Each module has a target, and not more than a `uint32` counts.
abbrev CanChoose : Server → Type 0
CanChoose s =
    (name : Bytes) (ts : List Target)
    → lookup name s.modules ≡ some ts
    → (0 < length ts) × (length ts < 2 ^ 32)

pick_target_at :
    (w : Setting) (ts : List Target) (i : ℕ) (t : Target)
    → choose_target_by_client_ip w.client_ip (length ts) ≡ some i
    → get_elem? ts i ≡ some t
    → pick_target w ts ≡ some t
unfolding pick_target
pick_target_at w ts i t is at = ground arith

pick_target_found :
    (w : Setting) (ts : List Target)
    → 0 < length ts
    → length ts < 2 ^ 32
    → (t : Target) × (pick_target w ts ≡ some t) × Memᴰ t ts
pick_target_found w ts p q =
    let (i, is, lt) = choose-lt w.client_ip (length ts) p q in
    let (t, at, m) = get_elem?-lt ts i lt in (t, pick_target_at w ts i t is at, m)

Does-relay :
    (w : Setting)
    → CanChoose w.at_lookup
    → HasQueues w.at_lookup
    → w.at_queue ≡ w.at_lookup
    → Does AnyEffect IsOrdinary Any (relay w)
Does-relay w chooses queues same =
    relay_J IsQuiet (λ _ a b _. (a, b)) (Does AnyEffect IsOrdinary Any)
      (Does-Judgement IsQuiet AnyEffect IsOrdinary (λ _ _. tt) (λ _ h. h)) w
      (λ name version ts target found picked.
        let (t, is, m) =
          pick_target_found w ts (chooses name ts found).0 (chooses name ts found).1 in
        let listed : Memᴰ target ts =
          subst (λ x. Memᴰ x ts) (some-injective t target (sym is ∙ picked)) m in
        let (p, has) = queues name ts target found listed in
        let queue = ap (λ (x : Server). lookup target.upstream x.upstream_queues) same ∙ has in
        Does-serve_target AnyEffect IsOrdinary (λ _ h. h) (λ _ _ _. tt) w target name version
          (λ _. (tt, tt)) (λ missing. cc (queue, missing)))
      (λ name ts found panics.
        let (t, is, m) =
          pick_target_found w ts (chooses name ts found).0 (chooses name ts found).1 in
        let never : ⊥ = cc in absurd never)
      (λ i. ((refl, refl), (refl, refl)))

if_any-positive : (xs ts : List Target) → if_any xs ≡ some ts → 0 < length ts
if_any-positive [] ts e = absurd cc
if_any-positive (x ∷ xs) ts e = rw⁻¹ (some-injective (x ∷ xs) ts e) (omega arith)

Ends-failed :
    (o : Outcome (Unit {0})) (e : RelayError) → o ≡ failed e → Ends IsOrdinary Any o → IsOrdinary e
Ends-failed o e is h = subst (Ends IsOrdinary Any) is h

load_config-positive :
    (v : World) (c : Config) (open_log : Bool) (s : Server)
    → (load_config v c open_log s).1 ≡ none
    → (name : Bytes) (ts : List Target)
    → lookup name (load_config v c open_log s).0.modules ≡ some ts
    → 0 < length ts
unfolding install
load_config-positive v c open_log s h name ts found =
    let (cert, us, d, t, named, _, same, is) = load_config-installs v c open_log s h in
    let us' = resolve_upstreams us d in
    if_any-positive (targets_of name us') ts (
      sym (lookup-build_module_targets name us')
      ∙ ap (λ (x : Server). lookup name x.modules) (sym is)
      ∙ found)

-- With the state that a load without an error leaves, at both times at which the maps are read,
-- and no more targets of a module than a `uint32` counts, a connection never ends with a target
-- out of range or for want of a queue.
pub relay-IsOrdinary :
    (v : World) (c : Config) (open_log : Bool) (before : Server) (w : Setting) (s : Session)
    (e : RelayError)
    → (load_config v c open_log before).1 ≡ none
    → All (λ x. length x.1 < 2 ^ 32) (load_config v c open_log before).0.modules
    → w.at_lookup ≡ (load_config v c open_log before).0
    → w.at_queue ≡ (load_config v c open_log before).0
    → (relay w s).0 ≡ failed e
    → IsOrdinary e
relay-IsOrdinary v c open_log before w s e loads few first second fails =
    let chooses : CanChoose w.at_lookup = rw first (λ name ts found. (
      load_config-positive v c open_log before loads name ts found,
      lookup-All (λ (x : List Target). length x < 2 ^ 32) name ts _ few found,
    )) in
    let queues : HasQueues w.at_lookup =
      rw first (load_config-HasQueues v c open_log before loads) in
    let (es, added, all, ends) = (Does-relay w chooses queues (second ∙ sym first)).runs s in
    Ends-failed (relay w s).0 e fails ends
