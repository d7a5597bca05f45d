-- ===== src/Relay/Slots.antt =====
-- The places that `relay` takes in a queue and gives back.
use rsync_proxy.Base.{
  ℕ, ◌≡◌, refl, ap, ◌∙◌, ◌⊎◌, inl, inr, false, List, [], ◌∷◌, ◌++◌, append-nil, append_assoc,
  if◌then◌else◌, Bool-cases, Option-cases, Bytes, All, lookup, bytes_eq,
}
use rsync_proxy.Relay.Triples.{Does, Any, Does-tell, Does-fail}
use rsync_proxy.Relay.Effects.{Effect, is_slot, acquire_slot, release_slot}
use rsync_proxy.Relay.Script.{
  RelayError, no_queue, index_panic, Outcome, done, failed, blocked, Session, M, ◌>>=◌, ◌>>◌, fail,
  tell, tell_all, finally, deferred,
}
use rsync_proxy.Relay.Traces.{
  AnyError, Left, Leaves, Ignores, Leaves-none, Leaves-then, Leaves-Judgement,
}
use rsync_proxy.Relay.Parts.{Does-with_slot}
use rsync_proxy.Relay.Outer.{relay_J, IsQuiet, relay_J}
use rsync_proxy.Routing.{Target}
use rsync_proxy.Relay.{Setting, serve_target, with_slot, relay}

abbrev NoSlot : Effect → Type 0
NoSlot e = is_slot e ≡ false

-- The effects that take a place or give it back, in order.
unfoldable pub slots : List Effect → List Effect
slots [] = []
slots (e ∷ es) = if is_slot e then e ∷ slots es else slots es

-- None, or one place taken and that one given back.
abbrev pub IsBalanced : List Effect → Type 0
IsBalanced es = (es ≡ []) ⊎ ((p : ℕ) × (es ≡ acquire_slot p ∷ release_slot p ∷ []))

slots_none : (es : List Effect) → All NoSlot es → slots es ≡ []
unfolding slots
slots_none [] h = refl
slots_none (e ∷ es) (h, hs) = rw h (slots_none es hs)

slots-append : (xs ys : List Effect) → slots (xs ++ ys) ≡ slots xs ++ slots ys
unfolding slots
slots-append [] ys = refl
slots-append (e ∷ xs) ys = elim (Bool-cases (is_slot e)) [
  | inl is ↦ rw is (ap (λ l. e ∷ l) (slots-append xs ys))
  | inr other ↦ rw other (slots-append xs ys)
]

slots_after : (xs ys : List Effect) → All NoSlot xs → slots (xs ++ ys) ≡ slots ys
slots_after xs ys h = slots-append xs ys ∙ ap (λ l. l ++ slots ys) (slots_none xs h)

slots_before : (xs ys : List Effect) → All NoSlot ys → slots (xs ++ ys) ≡ slots xs
slots_before xs ys h =
    slots-append xs ys ∙ ap (λ l. slots xs ++ l) (slots_none ys h) ∙ append-nil (slots xs)

slots-Ignores : Ignores NoSlot (λ es. IsBalanced (slots es))
slots-Ignores = record {
  holds_of_none = λ es h. inl (slots_none es h);
  before = λ es fs h b. rw (slots_after es fs h) b;
  after = λ es fs b h. rw (slots_before es fs h) b;
}

held_slots :
    (p : ℕ) (es : List Effect)
    → All NoSlot es
    → slots (acquire_slot p ∷ (es ++ release_slot p ∷ [])) ≡ acquire_slot p ∷ release_slot p ∷ []
unfolding slots
held_slots p es h = ap (λ l. acquire_slot p ∷ l) (slots_after es (release_slot p ∷ []) h)

held_effects :
    (x y z es : List Effect) (a b : Effect)
    → y ≡ x ++ a ∷ []
    → z ≡ y ++ es
    → z ++ b ∷ [] ≡ x ++ a ∷ (es ++ b ∷ [])
held_effects x y z es a b e g =
    ap (λ l. l ++ b ∷ []) (g ∙ ap (λ l. l ++ es) e)
    ∙ append_assoc (x ++ a ∷ []) es (b ∷ [])
    ∙ append_assoc x (a ∷ []) (es ++ b ∷ [])

held-Left :
    (p : ℕ) (s t : Session) (r : Outcome (Unit {0}) × Session) (es : List Effect)
    → t.effects ≡ s.effects ++ acquire_slot p ∷ []
    → r.1.effects ≡ t.effects ++ es
    → All NoSlot es
    → Left (λ es. IsBalanced (slots es)) s (deferred (release_slot p ∷ []) r)
held-Left p s t (blocked, u) es e g h = inl refl
held-Left p s t (done a, u) es e g h = inr (
  acquire_slot p ∷ (es ++ release_slot p ∷ []),
  held_effects s.effects t.effects u.effects es (acquire_slot p) (release_slot p) e g,
  inr (p, held_slots p es h),
)
held-Left p s t (failed x, u) es e g h = inr (
  acquire_slot p ∷ (es ++ release_slot p ∷ []),
  held_effects s.effects t.effects u.effects es (acquire_slot p) (release_slot p) e g,
  inr (p, held_slots p es h),
)

held-Leaves :
    (p : ℕ) (m : M (Unit {0}))
    → Does NoSlot AnyError Any m
    → Leaves
        (λ es. IsBalanced (slots es))
        (tell (acquire_slot p) >> finally (release_slot p ∷ []) m)
unfolding ◌>>◌ ◌>>=◌ tell tell_all finally
held-Leaves p m h = record {
  leaves = λ s.
      let t = record s { effects = s.effects ++ acquire_slot p ∷ [] } in
      let (es, added, all, ends) = h.runs t in held-Left p s t (m t) es refl added all;
}

serve_target_balances :
    (w : Setting) (name version : Bytes) (target : Target)
    → Leaves (λ es. IsBalanced (slots es)) (serve_target w target name version)
unfolding serve_target
serve_target_balances w name version target =
    Leaves-then NoSlot _ slots-Ignores _ _ (Does-tell NoSlot AnyError _ refl)
      (elim (Option-cases (lookup target.upstream w.at_queue.upstream_queues)) [
        | inl missing ↦ rw missing (fails no_queue)
        | inr (p, found) ↦ rw found (held-Leaves p _ inside)
      ])
  where
    fails : (e : RelayError) → Leaves (λ es. IsBalanced (slots es)) (fail e)
    fails e = Leaves-none NoSlot _ slots-Ignores (fail e) (Does-fail NoSlot AnyError Any e tt)

    inside : Does NoSlot AnyError Any (with_slot w target name version)
    inside = Does-with_slot NoSlot AnyError (λ _ _. tt) (λ _ h _. h) w target name version

-- A connection's run, unless it waits for something that never comes, takes no place in a
-- queue, or takes one and gives the same one back, once.
pub relay-IsBalanced :
    (w : Setting) (s : Session)
    → ((relay w s).0 ≡ blocked)
      ⊎ ((es : List Effect) × ((relay w s).1.effects ≡ s.effects ++ es) × IsBalanced (slots es))
relay-IsBalanced w s =
    let run =
      relay_J IsQuiet (λ _ a b _. (a, b)) (Leaves (λ es. IsBalanced (slots es)))
        (Leaves-Judgement NoSlot _ slots-Ignores IsQuiet (λ _ q. q.1)) w
        (λ name version targets target _ _. serve_target_balances w name version target)
        (λ _ _ _ _.
          Leaves-none NoSlot _ slots-Ignores _ (Does-fail NoSlot AnyError Any index_panic tt))
        (λ i. ((refl, refl), (refl, refl))) in
    run.leaves s
