-- ===== src/Queue/Receipts.antt =====
-- What each client has read of its grant.
use rsync_proxy.Base.{
  ℕ, ◌+◌, ◌≤◌, ◌≡◌, refl, sym, ap, subst, ◌∙◌, ◌≢◌, ◌⊎◌, inl, inr, true, false, ◌&&◌, none, some,
  [], ◌∷◌, Memᴰ, arith, ◌==◌, if◌then◌else◌, Bool-cases, All, All-append, All-append_left,
  All-append_right, All-mem, All-imp, All-imp2,
}
use rsync_proxy.Queue.Channels.{
  Chan, Status, Store, granted, zero_status, receive, receive_pending, receive_closed, ok-injective,
}
use rsync_proxy.Queue.Acquire.{Acquired, acquire_lem}
use rsync_proxy.Queue.Admission.{granted_chan}
use rsync_proxy.Queue.Release.{Released, release_from_handle_lem}
use rsync_proxy.Queue.Removal.{All-without}
use rsync_proxy.Queue.Invariant.{WellFormed, WellFormed-Apart, IsWaiting, IsGranted, Holds}
use rsync_proxy.Queue.History.{Reach-WellFormed, release_cases}
use rsync_proxy.Queue.{
  Queue, new, has_room, is_full, set_max, System, Step, acquires, releases, receives, sets_max,
  Reach, start, next,
}

abbrev count_receipt : {s t : System} → Step s t → ℕ → ℕ → ℕ
count_receipt (acquires ch e) j n = n
count_receipt (releases ch h e) j n = n
count_receipt (receives {s} {status} {chans} ch e) j n = if ch == j && status.ok then n + 1 else n
count_receipt (sets_max max max_queued) j n = n

-- How many grants were received on a channel so far.
abbrev pub grants_read : {s : System} → Reach s → ℕ → ℕ
grants_read (start max max_queued) j = 0
grants_read (next r st) j = count_receipt st j (grants_read r j)

abbrev spent_chan : Chan
spent_chan = record { pending = none; closed = true }

-- A grant is on the channel and was not read, or was read once and is gone.
abbrev IsServedBy : Chan → ℕ → Type 0
IsServedBy c n = ((c ≡ granted_chan) × (n ≡ 0)) ⊎ ((c ≡ spent_chan) × (n ≡ 1))

record IsFair (q : Queue) (n : ℕ → ℕ) : Type 0 where
  active_ok : All (λ j. IsServedBy (q.chans j) (n j)) q.active
  queued_ok : All (λ j. n j ≡ 0) q.queued
  unused :
      (j : ℕ)
      → q.next_chan ≤ j
      → (n j ≡ 0) × ((q.chans j).pending ≡ none) × ((q.chans j).closed ≡ false)

IsServedBy-same : (c d : Chan) (n : ℕ) → d ≡ c → IsServedBy c n → IsServedBy d n
IsServedBy-same c d n e h = subst (λ x. IsServedBy x n) (sym e) h

module _ (q r : Queue) (n : ℕ → ℕ) (w : WellFormed q) (f : IsFair q n) where
  Acquired-active : Acquired q r → All (λ j. IsServedBy (r.chans j) (n j)) r.active
  Acquired-active a =
      let kept : All (λ j. IsServedBy (r.chans j) (n j)) q.active =
        All-imp2 (Holds IsGranted q.chans q.next_chan) (λ j. IsServedBy (q.chans j) (n j))
          (λ j. IsServedBy (r.chans j) (n j))
          (λ j below h.
            IsServedBy-same (q.chans j) (r.chans j) (n j)
              (a.apart j (λ e. absurd (omega (arith, below.0, e)))) h)
          q.active w.active_ok f.active_ok in
      elim (Bool-cases (has_room q)) [
        | inl room ↦
            subst (All (λ j. IsServedBy (r.chans j) (n j))) (sym (a.active_is ∙ (rw room refl))) (
              All-append _ q.active (q.next_chan ∷ []) kept
                (inl (a.answered ∙ (rw room refl), (f.unused q.next_chan (omega arith)).0), tt))
        | inr shut ↦
            subst (All (λ j. IsServedBy (r.chans j) (n j))) (sym (a.active_is ∙ (rw shut refl)))
              kept
      ]

  Acquired-queued : Acquired q r → All (λ j. n j ≡ 0) r.queued
  Acquired-queued a = elim (Bool-cases (has_room q)) [
    | inl room ↦ subst (All (λ j. n j ≡ 0)) (sym (a.queued_is ∙ (rw room refl))) f.queued_ok
    | inr shut ↦ elim (Bool-cases (is_full q)) [
      | inl full ↦
          subst (All (λ j. n j ≡ 0)) (sym (a.queued_is ∙ (rw (shut, full) refl))) f.queued_ok
      | inr free ↦ subst (All (λ j. n j ≡ 0)) (sym (a.queued_is ∙ (rw (shut, free) refl))) (
          All-append _ q.queued (q.next_chan ∷ []) f.queued_ok
            ((f.unused q.next_chan (omega arith)).0, tt))
    ]
  ]

  Acquired-IsFair : Acquired q r → IsFair r n
  Acquired-IsFair a = record {
    active_ok = Acquired-active a;
    queued_ok = Acquired-queued a;
    unused = λ j h.
        let (none_read, empty, is_open) = f.unused j (omega (arith, a.next_is, h)) in
        let same = a.apart j (λ e. absurd (omega (arith, a.next_is, h, e))) in
        (
          none_read,
          ap (λ (c : Chan). c.pending) same ∙ empty,
          ap (λ (c : Chan). c.closed) same ∙ is_open,
        );
  }

  Released-active : (ch : ℕ) → Released ch q r → All (λ j. IsServedBy (r.chans j) (n j)) r.active
  Released-active ch x =
      let kept : All (λ j. IsServedBy (r.chans j) (n j)) q.active =
        All-imp2 (λ j. All (λ y. y ≢ j) q.queued) (λ j. IsServedBy (q.chans j) (n j))
          (λ j. IsServedBy (r.chans j) (n j))
          (λ j away h. IsServedBy-same (q.chans j) (r.chans j) (n j) (x.apart j away) h) q.active
          (WellFormed-Apart q w) f.active_ok in
      let stayed : All (λ j. IsServedBy (r.chans j) (n j)) x.base = elim x.base_is [
        | inl all ↦ subst (All (λ j. IsServedBy (r.chans j) (n j))) (sym all) kept
        | inr most ↦
            subst (All (λ j. IsServedBy (r.chans j) (n j))) (sym most)
              (All-without _ ch q.active kept)
      ] in
      let came : All (λ j. n j ≡ 0) x.moved = elim x.split [
        | inl parts ↦
            All-append_left _ x.moved r.queued (subst (All (λ j. n j ≡ 0)) parts f.queued_ok)
        | inr (nobody, _) ↦ subst (All (λ j. n j ≡ 0)) (sym nobody) tt
      ] in
      subst (All (λ j. IsServedBy (r.chans j) (n j))) (sym x.active_is) (
        All-append _ x.base x.moved stayed (
          All-imp2 (λ j. r.chans j ≡ granted_chan) (λ j. n j ≡ 0)
            (λ j. IsServedBy (r.chans j) (n j)) (λ j told fresh. inl (told, fresh)) x.moved
            x.moved_told came))

  Released-queued : (ch : ℕ) → Released ch q r → All (λ j. n j ≡ 0) r.queued
  Released-queued ch x = elim x.split [
    | inl parts ↦ All-append_right _ x.moved r.queued (subst (All (λ j. n j ≡ 0)) parts f.queued_ok)
    | inr (_, left) ↦ subst (All (λ j. n j ≡ 0)) (sym left) (All-without _ ch q.queued f.queued_ok)
  ]

  Released-IsFair : (ch : ℕ) → Released ch q r → IsFair r n
  Released-IsFair ch x = record {
    active_ok = Released-active ch x;
    queued_ok = Released-queued ch x;
    unused = λ j h.
        let old : q.next_chan ≤ j = omega (arith, x.next_is, h) in
        let (none_read, empty, is_open) = f.unused j old in
        let same = x.apart j (
          All-imp (Holds IsWaiting q.chans q.next_chan) (λ y. y ≢ j)
            (λ y below e. absurd (omega (arith, below.0, e, old))) q.queued w.queued_ok) in
        (
          none_read,
          ap (λ (c : Chan). c.pending) same ∙ empty,
          ap (λ (c : Chan). c.closed) same ∙ is_open,
        );
  }

-- A receive on one channel: what it does to the others and to this one.
receive_one :
    (ch : ℕ) (s t : Store) (st : Status) (j n : ℕ)
    → receive ch s ≡ some (st, t)
    → IsServedBy (s j) n
    → IsServedBy (t j) (if ch == j && st.ok then n + 1 else n)
unfolding receive
receive_one ch s t st j n e (inl (c, z)) = ground arith
receive_one ch s t st j n e (inr (c, z)) = ground arith

receive_waiting :
    (ch : ℕ) (s t : Store) (st : Status) (j n : ℕ)
    → receive ch s ≡ some (st, t)
    → IsWaiting (s j)
    → n ≡ 0
    → (if ch == j && st.ok then n + 1 else n) ≡ 0
unfolding receive
receive_waiting ch s t st j n e g z = ground (arith, g.1 st)

receive_unused :
    (ch : ℕ) (s t : Store) (st : Status) (j n : ℕ)
    → receive ch s ≡ some (st, t)
    → (n ≡ 0) × ((s j).pending ≡ none) × ((s j).closed ≡ false)
    → ((if ch == j && st.ok then n + 1 else n) ≡ 0)
      × ((t j).pending ≡ none)
      × ((t j).closed ≡ false)
unfolding receive
receive_unused ch s t st j n e (a, b, c) = ground arith

received-IsFair :
    (q : Queue) (n : ℕ → ℕ) (ch : ℕ) (st : Status) (t : Store)
    → receive ch q.chans ≡ some (st, t)
    → WellFormed q
    → IsFair q n
    → IsFair (record q { chans = t }) (λ j. if ch == j && st.ok then n j + 1 else n j)
received-IsFair q n ch st t e w f = record {
  active_ok =
      All-imp (λ j. IsServedBy (q.chans j) (n j))
        (λ j. IsServedBy (t j) (if ch == j && st.ok then n j + 1 else n j))
        (λ j h. receive_one ch q.chans t st j (n j) e h) q.active f.active_ok;
  queued_ok =
      All-imp2 (Holds IsWaiting q.chans q.next_chan) (λ j. n j ≡ 0)
        (λ j. (if ch == j && st.ok then n j + 1 else n j) ≡ 0)
        (λ j h z. receive_waiting ch q.chans t st j (n j) e h.1 z) q.queued w.queued_ok f.queued_ok;
  unused = λ j h. receive_unused ch q.chans t st j (n j) e (f.unused j h);
}

Step-IsFair :
    {s t : System} (st : Step s t) (n : ℕ → ℕ)
    → WellFormed s.queue
    → IsFair s.queue n
    → IsFair t.queue (λ j. count_receipt st j (n j))
unfolding set_max
Step-IsFair (acquires {s} {q} ch e) n w f =
    let (r, went, a) = acquire_lem s.queue in
    subst (λ x. IsFair x n)
      (ap (λ (p : Queue × ℕ). p.0) (ok-injective (r, s.queue.next_chan) (q, ch) (sym went ∙ e)))
      (Acquired-IsFair s.queue r n w f a)
Step-IsFair (releases {s} {t} ch h e) n w f = elim (release_cases ch s t e) [
  | inl (again, same) ↦ subst (λ (u : System). IsFair u.queue n) (sym same) f
  | inr (first, went, last) ↦
      let (r, went1, x) = release_from_handle_lem ch s.queue w in
      subst (λ u. IsFair u n) (ok-injective r t.queue (sym went1 ∙ went))
        (Released-IsFair s.queue r n w f ch x)
]
Step-IsFair (receives {s} {status} {chans} ch e) n w f =
    received-IsFair s.queue n ch status chans e w f
Step-IsFair (sets_max {s} max max_queued) n w f = record {
  active_ok = f.active_ok;
  queued_ok = f.queued_ok;
  unused = f.unused;
}

Reach-IsFair : {s : System} (r : Reach s) → IsFair s.queue (λ j. grants_read r j)
unfolding new
Reach-IsFair (start max max_queued) = record {
  active_ok = tt;
  queued_ok = tt;
  unused = λ j h. (refl, refl, refl);
}
Reach-IsFair (next r st) = Step-IsFair st (grants_read r) (Reach-WellFormed r) (Reach-IsFair r)

-- What the client of `ch` finds on its channel, after `n` grants were received on it.
abbrev pub Finds : ℕ → Store → ℕ → Type 0
Finds ch chans n =
    ((n ≡ 0) × ((t : Store) × (receive ch chans ≡ some (granted, t))))
    ⊎ ((n ≡ 1) × (receive ch chans ≡ some (zero_status, chans)))

finds : (ch : ℕ) (s : Store) (n : ℕ) → IsServedBy (s ch) n → Finds ch s n
finds ch s n (inl (c, z)) = inl (z, receive_pending ch s granted (ap (λ (x : Chan). x.pending) c))
finds ch s n (inr (c, z)) =
    inr (z, receive_closed ch s (ap (λ (x : Chan). x.pending) c) (ap (λ (x : Chan). x.closed) c))

waits :
    (ch : ℕ) (s t : Store) (st : Status)
    → receive ch s ≡ some (st, t)
    → IsWaiting (s ch)
    → (st.ok ≡ false) × (st.full ≡ false)
unfolding receive
waits ch s t st e h = ground (arith, h.1 st)

-- However a state was reached: an active client has its grant to receive if it did not receive it
-- yet, and if it did, it did so once and receives the zero status of the closed channel, so that it
-- never blocks; a waiting client has received no grant, and what it can receive is neither a grant
-- nor a rejection.
pub receive_tells :
    {s : System} (reach : Reach s) (ch : ℕ)
    → (Memᴰ ch s.queue.active → Finds ch s.queue.chans (grants_read reach ch))
      × (Memᴰ ch s.queue.queued
          → (grants_read reach ch ≡ 0)
            × ((st : Status) (chans : Store)
                → receive ch s.queue.chans ≡ some (st, chans)
                → (st.ok ≡ false) × (st.full ≡ false)))
receive_tells {s} reach ch =
    let f = Reach-IsFair reach in
    let w = Reach-WellFormed reach in
    (
      λ m. finds ch s.queue.chans _ (All-mem _ s.queue.active f.active_ok m),
      λ m. (
        All-mem _ s.queue.queued f.queued_ok m,
        λ st chans e. waits ch s.queue.chans chans st e (All-mem _ s.queue.queued w.queued_ok m).1,
      ),
    )
