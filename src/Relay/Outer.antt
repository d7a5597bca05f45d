-- ===== src/Relay/Outer.antt =====
-- What `relay` does around the use of a target: a rule for judgements on it.
use rsync_proxy.Relay.Triples.{
  Does-bind, Does-weaken, All-weaken, Does-finally, Does, Any, Does-return, Does-fail, Does-tell,
  Does-then, Does-if, Does-try_write_client, Does-write_client, Does-read_client,
}
use rsync_proxy.Base.{
  ℕ, ◌≡◌, refl, inl, inr, Bool, true, false, none, some, List, [], ◌==◌, if◌then◌else◌,
  Option-cases, Bytes, bytes_beq, has_prefix, length, All, bytes_eq, pair_eq, nat_eq, lookup,
}
use rsync_proxy.Relay.{
  conn_deleted, conn_stored, Setting, serve_target, pick_target, serve_module, serve_request,
  send_server_motd, list_all_modules, handshake, relay,
}
use rsync_proxy.Relay.Texts.{drop_last}
use rsync_proxy.Relay.Effects.{is_entry, Effect, touches_upstream, is_slot}
use rsync_proxy.Wire.{rsyncd_version_prefix}
use rsync_proxy.Relay.Script.{
  RelayError, index_panic, read_version, unknown_version, send_version, read_module, empty_request,
  send_motd, list_modules, M, ◌>>=◌, ◌>>◌, fail, finally,
}
use rsync_proxy.Relay.Parts.{is_broken}
use rsync_proxy.Routing.{Target}

-- Neither reaches an upstream nor takes or gives back a place.
abbrev pub IsQuiet : Effect → Type 0
IsQuiet e = (touches_upstream e ≡ false) × (is_slot e ≡ false)

abbrev pub IsOrdinary : RelayError → Type 0
IsOrdinary e = is_broken e ≡ false

-- A judgement that holds of quiet parts and goes through the steps around them.
pub record Judgement (Q : Effect → Type 0) (J : M (Unit {0}) → Type 0) : Type 0 where
  pub quiet : (m : M (Unit {0})) → Does Q IsOrdinary Any m → J m
  pub follows : (m k : M (Unit {0})) → Does Q IsOrdinary Any m → J k → J (m >> k)
  pub bind :
      (m : M Bytes) (f : Bytes → M (Unit {0}))
      → Does Q IsOrdinary (λ _. Unit) m
      → ((a : Bytes) → J (f a))
      → J (m >>= f)
  pub ends : (es : List Effect) (m : M (Unit {0})) → All Q es → J m → J (finally es m)

module _ (Q : Effect → Type 0)
    (inner : (e : Effect)
      → touches_upstream e ≡ false
      → is_slot e ≡ false
      → is_entry e ≡ false
      → Q e)
    (J : M (Unit {0}) → Type 0) (law : Judgement Q J) (w : Setting) where
  module _
      (serves : (name version : Bytes) (targets : List Target) (target : Target)
        → lookup name w.at_lookup.modules ≡ some targets
        → pick_target w targets ≡ some target
        → J (serve_target w target name version))
      (misses : (name : Bytes) (targets : List Target)
        → lookup name w.at_lookup.modules ≡ some targets
        → pick_target w targets ≡ none
        → J (fail index_panic)) where
    if_J : (b : Bool) (m k : M (Unit {0})) → J m → J k → J (if b then m else k)
    if_J true m k h g = h
    if_J false m k h g = g

    Does-send_server_motd : Does Q IsOrdinary Any (send_server_motd w)
    unfolding send_server_motd
    Does-send_server_motd =
        Does-if Q IsOrdinary Any (bytes_beq w.motd []) _ _ (Does-return Q IsOrdinary Any tt tt)
          (Does-write_client Q IsOrdinary _ send_motd (inner _ refl refl refl) refl)

    serve_module_J : (name version : Bytes) → J (serve_module w name version)
    unfolding serve_module
    serve_module_J name version =
        law.follows _ _ (Does-tell Q IsOrdinary _ (inner _ refl refl refl))
          (elim (Option-cases (lookup name w.at_lookup.modules)) [
            | inl missing ↦ rw missing (
                law.quiet _ (
                  Does-then Q IsOrdinary Any _ _ (Does-tell Q IsOrdinary _ (inner _ refl refl refl))
                    (Does-then Q IsOrdinary Any _ _
                      (Does-try_write_client Q IsOrdinary _ (inner _ refl refl refl))
                      (Does-tell Q IsOrdinary _ (inner _ refl refl refl)))))
            | inr (targets, found) ↦ rw found (elim (Option-cases (pick_target w targets)) [
              | inl panics ↦ rw panics (misses name targets found panics)
              | inr (target, picked) ↦ rw picked (serves name version targets target found picked)
            ])
          ])

    serve_request_J : (version request : Bytes) → J (serve_request w version request)
    unfolding serve_request list_all_modules
    serve_request_J version request =
        if_J (length request == 0) _ _ (law.quiet _ (Does-fail Q IsOrdinary Any empty_request refl))
          (law.follows _ _ Does-send_server_motd (
            if_J (length request == 1) _ _
              (law.quiet _ (
                Does-then Q IsOrdinary Any _ _ (Does-tell Q IsOrdinary _ (inner _ refl refl refl))
                  (Does-write_client Q IsOrdinary _ list_modules (inner _ refl refl refl) refl)))
              (serve_module_J (drop_last request) version)))

    -- From the first line on.
    pub handshake_J : J (handshake w)
    unfolding handshake
    handshake_J = law.bind _ _ (Does-read_client Q IsOrdinary read_version refl) (λ version.
        if_J (has_prefix version rsyncd_version_prefix) _ _
          (law.follows _ _
            (Does-write_client Q IsOrdinary _ send_version (inner _ refl refl refl) refl)
            (law.bind _ _ (Does-read_client Q IsOrdinary read_module refl)
              (λ request. serve_request_J version request)))
          (law.quiet _ (Does-fail Q IsOrdinary Any unknown_version refl)))

    pub relay_J : ((i : ℕ) → Q (conn_stored i) × Q (conn_deleted i)) → J (relay w)
    unfolding relay
    relay_J entries =
        law.follows _ _ (Does-tell Q IsOrdinary _ (entries w.index).0)
          (law.ends _ _ ((entries w.index).1, ((inner _ refl refl refl), tt)) handshake_J)

-- What a run can do is such a judgement.
pub Does-Judgement :
    (Q N : Effect → Type 0) (E : RelayError → Type 0)
    → ((e : Effect) → Q e → N e)
    → ((e : RelayError) → IsOrdinary e → E e)
    → Judgement Q (Does N E Any)
Does-Judgement Q N E f g = record {
  quiet = λ m h. weaken Any m h;
  follows = λ m k h b. Does-then N E Any m k (weaken Any m h) b;
  bind = λ m k h b. Does-bind N E (λ _. Unit) Any m k (weaken (λ _. Unit) m h) (λ a _. b a);
  ends = λ es m h b. Does-finally N E Any es m (All-weaken Q N f es h) b;
}
  where
    weaken : {A : Type 0} (D : A → Type 0) (m : M A) → Does Q IsOrdinary D m → Does N E D m
    weaken D m h = Does-weaken Q N IsOrdinary E D m f g h
