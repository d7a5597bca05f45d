-- ===== src/Queue/Line/Termination.antt =====
-- The loop of `releaseFromHandle` comes to an end.
use rsync_proxy.Base.{ℕ, ◌<◌, ◌≡◌, refl, sym, ap, subst, ◌∙◌, ◌++◌, length, drop, take}
use rsync_proxy.Queue.Channels.{ok}
use rsync_proxy.Queue.Admission.{admit_loop_lem}
use rsync_proxy.Queue.Invariant.{queued-IsOpen}
use rsync_proxy.Queue.History.{Reach-WellFormed}
use rsync_proxy.Queue.Line.{slots}
use rsync_proxy.Queue.Line.Filling.{Fits-take, Admits-Fits}
use rsync_proxy.Queue.{Queue, without, admit_loop, System, Reach}

-- The queue from which a handle has just been taken out of the active ones.
abbrev pub one_left : ℕ → Queue → Queue
one_left ch q = record q { active = without ch q.active }

-- From a reachable state, whichever client leaves, the loop that admits waiting clients ends without
-- a panic and without blocking, after at most one round for each of them and one more test, and it
-- has then let in the first ones of the line, as many as fit.
pub admit_loop_ends :
    {s : System} (ch fuel : ℕ)
    → Reach s
    → length s.queue.queued < fuel
    → let q = one_left ch s.queue in
      let n = slots q.max (length q.active) (length q.queued) in
      (r : Queue) × (admit_loop fuel q ≡ ok r)
      × (r.active ≡ q.active ++ take n q.queued)
      × (r.queued ≡ drop n q.queued)
admit_loop_ends {s} ch fuel reach enough =
    let q = one_left ch s.queue in
    let n = slots q.max (length q.active) (length q.queued) in
    let w = Reach-WellFormed reach in
    let (r, went, a) =
      admit_loop_lem fuel q.queued q refl enough (queued-IsOpen s.queue w) w.queued_distinct in
    let (front, back) =
      subst (λ l. (take n l ≡ a.moved) × (drop n l ≡ r.queued)) (sym a.queued_is)
        (Fits-take n a.moved r.queued (Admits-Fits q r a)) in
    (r, went, a.active_is ∙ ap (λ l. q.active ++ l) (sym front), sym back)
