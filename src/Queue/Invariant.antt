-- ===== src/Queue/Invariant.antt =====
-- The invariant of a queue with its channels, and that the two loops of `releaseFromHandle` keep it.
use rsync_proxy.Base.{
  ℕ, suc, ◌≡◌, refl, sym, ap, subst, ◌≢◌, ◌⊎◌, inr, ◌<◌, true, false, List, [], ◌∷◌, ◌++◌, none,
  some, arith, All, All-imp, All-imp2, All-append, All-append_left, All-append_right, Distinct,
  Distinct-append, Distinct-append_left, Distinct-append_right, Distinct-append-Apart, Apart,
  Apart-of_property, ℤ,
}
use rsync_proxy.Queue.Channels.{Status, Chan, Store, granted}
use rsync_proxy.Queue.Broadcast.{IsOpen, Told, Broadcasts}
use rsync_proxy.Queue.Admission.{granted_chan, Admits}
use rsync_proxy.Queue.{Queue}

-- A client on the active list has been told so, or has its grant still to read.
abbrev pub IsGranted : Chan → Type 0
IsGranted c = (c.closed ≡ true) × ((c.pending ≡ none) ⊎ (c.pending ≡ some granted))

-- A waiting client never finds a grant or a rejection.
abbrev pub IsWaiting : Chan → Type 0
IsWaiting c =
    (c.closed ≡ false) × ((s : Status) → c.pending ≡ some s → (s.ok ≡ false) × (s.full ≡ false))

abbrev pub Holds : (Chan → Type 0) → Store → ℕ → ℕ → Type 0
Holds P s n ch = (ch < n) × P (s ch)

pub record WellFormed (q : Queue) : Type 0 where
  pub active_ok : All (Holds IsGranted q.chans q.next_chan) q.active
  pub queued_ok : All (Holds IsWaiting q.chans q.next_chan) q.queued
  pub active_distinct : Distinct q.active
  pub queued_distinct : Distinct q.queued

-- No client is active and waiting at once.
pub WellFormed-Apart : (q : Queue) → WellFormed q → Apart q.active q.queued
WellFormed-Apart q w =
    Apart-of_property (Holds IsGranted q.chans q.next_chan) (Holds IsWaiting q.chans q.next_chan)
      (λ a b p r e. clash q a b p.1 r.1 e) q.active q.queued w.active_ok w.queued_ok
  where
    clash : (q : Queue) (a b : ℕ) → IsGranted (q.chans a) → IsWaiting (q.chans b) → b ≡ a → ⊥
    clash q a b g v e = cc (sym g.0, ap (λ c. (q.chans c).closed) e, v.0)

pub queued-IsOpen : (q : Queue) → WellFormed q → All (IsOpen q.chans) q.queued
queued-IsOpen q w =
    All-imp (Holds IsWaiting q.chans q.next_chan) (IsOpen q.chans) (λ _ h. h.1.0) q.queued
      w.queued_ok

-- A fact about the channels of a list survives where these channels are unchanged.
Holds-transfer :
    (P : Chan → Type 0) (s t : Store) (n m : ℕ) (xs : List ℕ)
    → n ≡ m
    → All (λ j. t j ≡ s j) xs
    → All (Holds P s n) xs
    → All (Holds P t m) xs
Holds-transfer P s t n m xs e same h =
    All-imp2 (λ j. t j ≡ s j) (Holds P s n) (Holds P t m)
      (λ j k g. (subst (λ b. j < b) e g.0, subst P (sym k) g.1)) xs same h

Told-IsWaiting :
    (s : Store) (base total : ℤ) (i n : ℕ) (t : Store) (xs : List ℕ)
    → Told t base total i xs
    → All (Holds IsWaiting s n) xs
    → All (Holds IsWaiting t n) xs
Told-IsWaiting s base total i n t [] h k = tt
Told-IsWaiting s base total i n t (x ∷ xs) h k = (
  (k.0.0, subst IsWaiting (sym h.0) (refl, λ st e. ground arith)),
  Told-IsWaiting s base total (suc i) n t xs h.1 k.1,
)

pub Broadcasts-WellFormed : (q r : Queue) → Broadcasts q r → WellFormed q → WellFormed r
Broadcasts-WellFormed q r b w = subst WellFormed (sym b.same_but_chans) (record {
  active_ok =
      Holds-transfer IsGranted q.chans r.chans q.next_chan q.next_chan q.active refl same
        w.active_ok;
  queued_ok = Told-IsWaiting q.chans _ _ 0 q.next_chan r.chans q.queued b.told w.queued_ok;
  active_distinct = w.active_distinct;
  queued_distinct = w.queued_distinct;
})
  where
    same : All (λ j. r.chans j ≡ q.chans j) q.active
    same =
        All-imp (λ j. All (λ y. y ≢ j) q.queued) (λ j. r.chans j ≡ q.chans j) b.apart q.active
          (WellFormed-Apart q w)

module _ (q r : Queue) (a : Admits q r) (w : WellFormed q) where
  split_ok : All (Holds IsWaiting q.chans q.next_chan) (a.moved ++ r.queued)
  split_ok = subst (All (Holds IsWaiting q.chans q.next_chan)) a.queued_is w.queued_ok

  split-Distinct : Distinct (a.moved ++ r.queued)
  split-Distinct = subst Distinct a.queued_is w.queued_distinct

  moved_Apart : Apart q.active a.moved
  moved_Apart =
      All-imp (λ x. All (λ y. y ≢ x) q.queued) (λ x. All (λ y. y ≢ x) a.moved)
        (λ x h.
          All-append_left (λ y. y ≢ x) a.moved r.queued (subst (All (λ y. y ≢ x)) a.queued_is h))
        q.active (WellFormed-Apart q w)

  moved_ok : All (Holds IsGranted r.chans r.next_chan) a.moved
  moved_ok =
      All-imp2 (λ ch. r.chans ch ≡ granted_chan) (Holds IsWaiting q.chans q.next_chan)
        (Holds IsGranted r.chans r.next_chan)
        (λ ch e h.
          (subst (λ b. ch < b) (sym a.next_is) h.0, subst IsGranted (sym e) (refl, inr refl)))
        a.moved a.told (All-append_left _ a.moved r.queued split_ok)

  unmoved : (xs : List ℕ) → Apart xs a.moved → All (λ j. r.chans j ≡ q.chans j) xs
  unmoved xs h = All-imp (λ j. All (λ y. y ≢ j) a.moved) (λ j. r.chans j ≡ q.chans j) a.apart xs h

  pub Admits-WellFormed : WellFormed r
  Admits-WellFormed = record {
    active_ok = subst (All (Holds IsGranted r.chans r.next_chan)) (sym a.active_is) (
        All-append _ q.active a.moved
          (Holds-transfer IsGranted q.chans r.chans q.next_chan r.next_chan q.active (sym a.next_is)
            (unmoved q.active moved_Apart) w.active_ok)
          moved_ok);
    queued_ok =
        Holds-transfer IsWaiting q.chans r.chans q.next_chan r.next_chan r.queued (sym a.next_is)
          (unmoved r.queued (Distinct-append-Apart a.moved r.queued split-Distinct))
          (All-append_right _ a.moved r.queued split_ok);
    active_distinct = subst Distinct (sym a.active_is) (
        Distinct-append q.active a.moved w.active_distinct
          (Distinct-append_left a.moved r.queued split-Distinct) moved_Apart);
    queued_distinct = Distinct-append_right a.moved r.queued split-Distinct;
  }
