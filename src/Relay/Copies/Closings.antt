-- ===== src/Relay/Copies/Closings.antt =====
-- What is closed once the `select` of `relay` is over.
use rsync_proxy.Relay.Copies.{
  start, any_effect, stops_reads, closing, copier, next, Direction, Reach, call, Call, sent,
  received, copying, closed, selects, Copying, close_channel, select, finish, Step, calls, closes,
  selected, sent_closed, received_closed,
}
use rsync_proxy.Base.{
  ◌≡◌, refl, ◌⊎◌, inl, inr, Bool, true, List, [], ◌∷◌, ◌++◌, arith, Bool-cases, Bytes,
}
use rsync_proxy.Relay.Effects.{Effect}
use rsync_proxy.Routing.{Target}

abbrev other : Direction → Direction
other sent = received
other received = sent

-- A copy has ended, and what the other one reads is closed.
abbrev pub IsPast : Copying → Type 0
IsPast s =
    (d : Direction) × ((copier d s).phase ≡ closed)
    × (any_effect (stops_reads (other d)) s.effects ≡ true)

any_effect-append :
    (test : Effect → Bool) (es fs : List Effect)
    → any_effect test fs ≡ true
    → any_effect test (es ++ fs) ≡ true
any_effect-append test [] fs h = h
any_effect-append test (e ∷ es) fs h = ground (arith, any_effect-append test es fs h)

closing-stops : (d : Direction) → any_effect (stops_reads (other d)) (closing d) ≡ true
closing-stops sent = refl
closing-stops received = refl

module _ (allows : List Call → Bool) (target : Target) (name : Bytes) where
  IsPast-call :
      (d : Direction) (c : Call) (s : Copying)
      → (copier d s).phase ≡ copying
      → IsPast s
      → IsPast (call d c s)
  unfolding call
  IsPast-call sent c s p (sent, e, h) = absurd (cc)
  IsPast-call sent c s p (received, e, h) = (received, e, h)
  IsPast-call received c s p (sent, e, h) = (sent, e, h)
  IsPast-call received c s p (received, e, h) = absurd (cc)

  IsPast-close :
      (d : Direction) (failed : Bool) (s : Copying) → IsPast s → IsPast (close_channel d failed s)
  unfolding close_channel
  IsPast-close sent failed s (sent, e, h) = (sent, refl, h)
  IsPast-close sent failed s (received, e, h) = (received, e, h)
  IsPast-close received failed s (sent, e, h) = (sent, e, h)
  IsPast-close received failed s (received, e, h) = (received, refl, h)

  -- Before the `select` is over, or after it.
  abbrev pub IsSplit : Copying → Type 0
  IsSplit s = (s.main ≡ selects) ⊎ IsPast s

  IsSplit-call :
      (d : Direction) (c : Call) (s : Copying)
      → (copier d s).phase ≡ copying
      → IsSplit s
      → IsSplit (call d c s)
  unfolding call
  IsSplit-call sent c s p (inl e) = inl e
  IsSplit-call received c s p (inl e) = inl e
  IsSplit-call d c s p (inr h) = inr (IsPast-call d c s p h)

  IsSplit-close :
      (d : Direction) (failed : Bool) (s : Copying) → IsSplit s → IsSplit (close_channel d failed s)
  unfolding close_channel
  IsSplit-close sent failed s (inl e) = inl e
  IsSplit-close received failed s (inl e) = inl e
  IsSplit-close d failed s (inr h) = inr (IsPast-close d failed s h)

  IsPast-select : (d : Direction) (s : Copying) → (copier d s).phase ≡ closed → IsPast (select d s)
  unfolding select
  IsPast-select sent s q = (sent, q, any_effect-append _ s.effects _ (closing-stops sent))
  IsPast-select received s q =
      (received, q, any_effect-append _ s.effects _ (closing-stops received))

  any_effect-before :
      (test : Effect → Bool) (es fs : List Effect)
      → any_effect test es ≡ true
      → any_effect test (es ++ fs) ≡ true
  any_effect-before test [] fs h = absurd (cc)
  any_effect-before test (e ∷ es) fs h = elim (Bool-cases (test e)) [
    | inl hit ↦ rw hit refl
    | inr miss ↦ rw miss (any_effect-before test es fs (rw miss at h))
  ]

  Step-IsSplit : {s t : Copying} → Step allows target name s t → IsSplit s → IsSplit t
  unfolding finish
  Step-IsSplit {s} (calls d c p can ok) h = IsSplit-call d c s p h
  Step-IsSplit {s} (closes d failed p) h = IsSplit-close d failed s h
  Step-IsSplit {s} (selected d p q) h = inr (IsPast-select d s q)
  Step-IsSplit {s} (sent_closed p q) (inl e) = absurd (cc)
  Step-IsSplit {s} (sent_closed p q) (inr (sent, e, h)) = inr (sent, e, h)
  Step-IsSplit {s} (sent_closed p q) (inr (received, e, h)) = inr (received, e, h)
  Step-IsSplit {s} (received_closed p q) (inl e) = absurd (cc)
  Step-IsSplit {s} (received_closed p q) (inr (sent, e, h)) =
      inr (sent, e, any_effect-before _ s.effects _ h)
  Step-IsSplit {s} (received_closed p q) (inr (received, e, h)) =
      inr (received, e, any_effect-before _ s.effects _ h)

  pub Reach-IsSplit : {s : Copying} → Reach allows target name s → IsSplit s
  Reach-IsSplit (start info a b) = inl refl
  Reach-IsSplit (next r st) = Step-IsSplit st (Reach-IsSplit r)

  pub other_stops :
      (d : Direction) (s : Copying)
      → IsPast s
      → (copier d s).phase ≡ copying
      → any_effect (stops_reads d) s.effects ≡ true
  other_stops sent s (sent, e, h) p = absurd (cc)
  other_stops sent s (received, e, h) p = h
  other_stops received s (sent, e, h) p = h
  other_stops received s (received, e, h) p = absurd (cc)
