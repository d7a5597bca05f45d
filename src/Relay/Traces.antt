-- ===== src/Relay/Traces.antt =====
-- A property of all that a run adds, which parts that add nothing of note do not disturb.
use rsync_proxy.Base.{
  ◌≡◌, refl, ap, ◌∙◌, ◌⊎◌, inl, inr, Bool, true, false, List, ◌++◌, append_assoc, if◌then◌else◌,
  All, bytes_eq,
}
use rsync_proxy.Relay.Effects.{Effect}
use rsync_proxy.Relay.Script.{
  RelayError, Outcome, done, failed, blocked, Session, M, ◌>>=◌, ◌>>◌, bind_outcome, finally,
  deferred,
}
use rsync_proxy.Relay.Triples.{Does, Any, Does-weaken, All-weaken}
use rsync_proxy.Relay.Outer.{IsOrdinary, Judgement}

abbrev pub AnyError : RelayError → Type 0
AnyError e = Unit

-- `R` holds of the effects that a run adds, unless it waits for ever.
abbrev pub Left : (List Effect → Type 0) → Session → Outcome (Unit {0}) × Session → Type 0
Left R s r = (r.0 ≡ blocked) ⊎ ((es : List Effect) × (r.1.effects ≡ s.effects ++ es) × R es)

pub record Leaves (R : List Effect → Type 0) (m : M (Unit {0})) : Type 0 where
  pub leaves : (s : Session) → Left R s (m s)

-- What `N` holds of may stand before and after.
pub record Ignores (N : Effect → Type 0) (R : List Effect → Type 0) : Type 0 where
  pub holds_of_none : (es : List Effect) → All N es → R es
  pub before : (es fs : List Effect) → All N es → R fs → R (es ++ fs)
  pub after : (es fs : List Effect) → R es → All N fs → R (es ++ fs)

module _ (N : Effect → Type 0) (R : List Effect → Type 0) (law : Ignores N R) where
  pub Leaves-none : (m : M (Unit {0})) → Does N AnyError Any m → Leaves R m
  Leaves-none m h = record {
    leaves =
        λ s. let (es, added, all, ends) = h.runs s in inr (es, added, law.holds_of_none es all);
  }

  Left-bind :
      {A : Type 0} (f : A → M (Unit {0})) (s : Session) (r : Outcome A × Session) (es : List Effect)
      → r.1.effects ≡ s.effects ++ es
      → All N es
      → ((a : A) → Leaves R (f a))
      → Left R s (bind_outcome r f)
  Left-bind f s (done a, t) es e h k = elim ((k a).leaves t) [
    | inl waits ↦ inl waits
    | inr (fs, g, b) ↦
        inr (es ++ fs, g ∙ ap (λ l. l ++ fs) e ∙ append_assoc s.effects es fs, law.before es fs h b)
  ]
  Left-bind f s (failed x, t) es e h k = inr (es, e, law.holds_of_none es h)
  Left-bind f s (blocked, t) es e h k = inl refl

  pub Leaves-bind :
      {A : Type 0} (m : M A) (f : A → M (Unit {0}))
      → Does N AnyError (λ _. Unit) m
      → ((a : A) → Leaves R (f a))
      → Leaves R (m >>= f)
  unfolding ◌>>=◌
  Leaves-bind m f h k = record {
    leaves = λ s. let (es, added, all, ends) = h.runs s in Left-bind f s (m s) es added all k;
  }

  pub Leaves-then : (m k : M (Unit {0})) → Does N AnyError Any m → Leaves R k → Leaves R (m >> k)
  unfolding ◌>>◌
  Leaves-then m k h b = Leaves-bind m (λ _. k) h (λ _. b)

  Left-deferred :
      (es : List Effect) (s : Session) (r : Outcome (Unit {0}) × Session)
      → All N es
      → Left R s r
      → Left R s (deferred es r)
  Left-deferred es s (blocked, t) h b = inl refl
  Left-deferred es s (done a, t) h (inl waits) = inl waits
  Left-deferred es s (failed x, t) h (inl waits) = inl waits
  Left-deferred es s (done a, t) h (inr (fs, e, b)) =
      inr (fs ++ es, ap (λ l. l ++ es) e ∙ append_assoc s.effects fs es, law.after fs es b h)
  Left-deferred es s (failed x, t) h (inr (fs, e, b)) =
      inr (fs ++ es, ap (λ l. l ++ es) e ∙ append_assoc s.effects fs es, law.after fs es b h)

  pub Leaves-finally :
      (es : List Effect) (m : M (Unit {0})) → All N es → Leaves R m → Leaves R (finally es m)
  unfolding finally
  Leaves-finally es m h b = record { leaves = λ s. Left-deferred es s (m s) h (b.leaves s) }

  pub Leaves-if :
      (b : Bool) (m k : M (Unit {0})) → Leaves R m → Leaves R k → Leaves R (if b then m else k)
  Leaves-if true m k h g = h
  Leaves-if false m k h g = g

  -- So such properties pass through the steps around the use of a target.
  pub Leaves-Judgement : (Q : Effect → Type 0) → ((e : Effect) → Q e → N e) → Judgement Q (Leaves R)
  Leaves-Judgement Q f = record {
    quiet = λ m h. Leaves-none m (weaken Any m h);
    follows = λ m k h b. Leaves-then m k (weaken Any m h) b;
    bind = λ m g h b. Leaves-bind m g (weaken (λ _. Unit) m h) b;
    ends = λ es m h b. Leaves-finally es m (All-weaken Q N f es h) b;
  }
    where
      weaken : {A : Type 0} (D : A → Type 0) (m : M A) → Does Q IsOrdinary D m → Does N AnyError D m
      weaken D m h = Does-weaken Q N IsOrdinary AnyError D m f (λ _ _. tt) h
