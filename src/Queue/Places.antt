-- ===== src/Queue/Places.antt =====
-- What waiting clients are told of their place in the line.
use rsync_proxy.Base.{
  ℕ, suc, ◌≡◌, sym, subst, ◌∙◌, inl, inr, false, List, [], ◌∷◌, arith, length, ℤ, pos, ◌+ℤ◌, ◌-ℤ◌,
}
use rsync_proxy.Queue.Channels.{Store, ok, waiting, ok-injective}
use rsync_proxy.Queue.Broadcast.{Told, holds}
use rsync_proxy.Queue.Release.{IsBusy, Released, release_from_handle_lem}
use rsync_proxy.Queue.Capacity.{IsCapped, Released-IsBusy, Released-IsCapped}
use rsync_proxy.Queue.History.{Reach-WellFormed, release_cases}
use rsync_proxy.Queue.{Queue, has_room, surplus, System, release, Reach}

-- Each waiting client, from place `i` on, holds its place and the number of waiting clients.
abbrev pub TellsPlaces : Store → ℕ → ℕ → List ℕ → Type 0
TellsPlaces s total i [] = Unit
TellsPlaces s total i (ch ∷ rest) =
    (s ch ≡ holds (waiting (pos i) (pos total))) × TellsPlaces s total (suc i) rest

Told-TellsPlaces :
    (s : Store) (base : ℤ) (total i : ℕ) (xs : List ℕ)
    → base ≡ pos 0
    → Told s base (base +ℤ pos total) i xs
    → TellsPlaces s total i xs
Told-TellsPlaces s base total i [] e h = tt
Told-TellsPlaces s base total i (x ∷ xs) e h =
    (h.0 ∙ places e, Told-TellsPlaces s base total (suc i) xs e h.1)
  where
    places :
        base ≡ pos 0
        → holds (waiting (base +ℤ pos i) (base +ℤ pos total)) ≡ holds (waiting (pos i) (pos total))
    places z = rw z (unfold ◌+ℤ◌ in ground arith)

surplus-zero : (q : Queue) → has_room q ≡ false → IsCapped q → surplus q ≡ pos 0
unfolding ◌-ℤ◌
surplus-zero q shut c = ground arith

Released-TellsPlaces :
    (ch : ℕ) (q r : Queue)
    → Released ch q r
    → IsBusy r
    → IsCapped r
    → TellsPlaces r.chans (length r.queued) 0 r.queued
Released-TellsPlaces ch q r x (inl e) c =
    subst (λ xs. TellsPlaces r.chans (length xs) 0 xs) (sym e) tt
Released-TellsPlaces ch q r x (inr shut) c =
    Told-TellsPlaces r.chans (surplus r) (length r.queued) 0 r.queued (surplus-zero r shut c) x.told

-- While the limit is met exactly, every waiting client is told its place in the line and how many
-- wait, whenever one leaves.
pub release-TellsPlaces :
    {s t : System} (ch : ℕ)
    → Reach s
    → IsBusy s.queue
    → IsCapped s.queue
    → s.released ch ≡ false
    → release ch s ≡ ok t
    → TellsPlaces t.queue.chans (length t.queue.queued) 0 t.queue.queued
release-TellsPlaces {s} {t} ch reach b c first e =
    let w = Reach-WellFormed reach in
    let (r, went, x) = release_from_handle_lem ch s.queue w in
    elim (release_cases ch s t e) [
      | inl (again, same) ↦ cc (sym again, first)
      | inr (_, went1, last) ↦
          subst (λ (q : Queue). TellsPlaces q.chans (length q.queued) 0 q.queued)
            (ok-injective r t.queue (sym went ∙ went1))
            (Released-TellsPlaces ch s.queue r x (Released-IsBusy ch s.queue r x b)
              (Released-IsCapped ch s.queue r x c))
    ]
