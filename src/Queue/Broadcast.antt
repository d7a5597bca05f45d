-- ===== src/Queue/Broadcast.antt =====
-- `broadcastStatus`: what each waiting client is told.
use rsync_proxy.Base.{
  ℕ, suc, ◌≡◌, refl, sym, ◌∙◌, ◌≢◌, false, List, [], ◌∷◌, some, All, All-imp2, Distinct, length, ℤ,
  pos, ◌+ℤ◌,
}
use rsync_proxy.Queue.Channels.{Status, waiting, Store, Chan, ok, try_send_open}
use rsync_proxy.Queue.{Queue, surplus, broadcast_from, broadcast_status}

abbrev pub holds : Status → Chan
holds status = record { pending = some status; closed = false }

-- Each of the items, from place `i` on, holds the status of its place, and no other.
abbrev pub Told : Store → ℤ → ℤ → ℕ → List ℕ → Type 0
Told s base total i [] = Unit
Told s base total i (ch ∷ rest) =
    (s ch ≡ holds (waiting (base +ℤ pos i) total)) × Told s base total (suc i) rest

abbrev pub IsOpen : Store → ℕ → Type 0
IsOpen s ch = (s ch).closed ≡ false

broadcast_from_lem :
    (base total : ℤ) (i : ℕ) (xs : List ℕ) (s : Store)
    → All (IsOpen s) xs
    → Distinct xs
    → (t : Store) × (broadcast_from base total i xs s ≡ ok t)
      × Told t base total i xs
      × ((j : ℕ) → All (λ x. x ≢ j) xs → t j ≡ s j)
unfolding broadcast_from
broadcast_from_lem base total i [] s h d = (s, refl, tt, λ j _. refl)
broadcast_from_lem base total i (x ∷ xs) s h d =
    let (s1, sent, here, apart) = try_send_open x (waiting (base +ℤ pos i) total) s h.0 in
    let still =
      All-imp2 (IsOpen s) (λ y. y ≢ x) (IsOpen s1) (λ y o ne. rw (apart y ne) o) xs h.1 d.0 in
    let (t, went, told, same) = broadcast_from_lem base total (suc i) xs s1 still d.1 in
    (t, rw sent went, (same x d.0 ∙ here, told), λ j ne. same j ne.1 ∙ apart j (λ e. ne.0 (sym e)))

-- The effect of `broadcastStatus`.
pub record Broadcasts (q r : Queue) : Type 0 where
  pub same_but_chans : r ≡ record q { chans = r.chans }
  pub told : Told r.chans (surplus q) (surplus q +ℤ pos (length q.queued)) 0 q.queued
  pub apart : (j : ℕ) → All (λ x. x ≢ j) q.queued → r.chans j ≡ q.chans j

pub broadcast_status_lem :
    (q : Queue)
    → All (IsOpen q.chans) q.queued
    → Distinct q.queued
    → (r : Queue) × (broadcast_status q ≡ ok r) × Broadcasts q r
unfolding broadcast_status
broadcast_status_lem q h d =
    let (t, went, told, same) =
      broadcast_from_lem (surplus q) (surplus q +ℤ pos (length q.queued)) 0 q.queued q.chans h d in
    (record q { chans = t }, rw went, record { same_but_chans = refl; told = told; apart = same })
