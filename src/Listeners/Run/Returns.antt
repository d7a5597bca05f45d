-- ===== src/Listeners/Run/Returns.antt =====
-- When `Run` returns.
use rsync_proxy.Base.{
  ℕ, suc, ◌≤◌, ◌≡◌, refl, subst, ◌≢◌, ◌⊎◌, inl, inr, true, Option, none, some, arith, Option-cases,
}
use rsync_proxy.Listeners.{Served, still_accepting, ended, broken, listener_closed}
use rsync_proxy.Listeners.Run.{
  Part, http, tcp, tls, RunError, Phase, serving, sends, gone, Running, part_beq, outcome, error_of,
  after_serving, return_from, hear, end_http, ServeEnd, serve_closed, serve_failed, serve_outcome,
  send, receive_error, Step, hears, serve_ends, returns, sends_error, receives_error, Reach, next,
}
use rsync_proxy.Listeners.Run.Causes.{HasCause, IsPhase, Reach-IsRun}

pub data Steps : ℕ → Running → Running → Type 0 where
  no_step : {s : Running} → Steps 0 s s
  one_step : {n : ℕ} {s t u : Running} → Step s t → Steps n t u → Steps (suc n) s u

Reach-Steps : {n : ℕ} {s t : Running} → Reach s → Steps n s t → Reach t
Reach-Steps r no_step = r
Reach-Steps r (one_step st more) = Reach-Steps (next r st) more

-- In at most `m` steps `Run` can return an error.
abbrev pub ReturnsWithin : ℕ → Running → Type 0
ReturnsWithin m s =
    (t : Running) × (e : RunError) × (n : ℕ) × (n ≤ m)
    × Steps n s t
    × (t.result ≡ some e)
    × HasCause e t

-- The same without the cause.
abbrev Returns : ℕ → Running → Type 0
Returns n s = (t : Running) × (e : RunError) × Steps n s t × (t.result ≡ some e)

Returns-later : (n : ℕ) (s t : Running) → Step s t → Returns n t → Returns (suc n) s
Returns-later n s t st (u, e, more, done) = (u, e, one_step st more, done)

from_buffer : (s : Running) (e : RunError) → s.result ≡ none → s.err_c ≡ some e → Returns 1 s
from_buffer s e runs came =
    (receive_error e s, e, one_step (receives_error e runs came) no_step, refl)

from_sender :
    (s : Running) (p : Part) (e : RunError)
    → s.result ≡ none
    → s.err_c ≡ none
    → s.phase p ≡ sends e
    → Returns 2 s
from_sender s p e runs room at =
    Returns-later 1 s (send p e s) (sends_error p e at room) (from_buffer (send p e s) e runs refl)

part_beq_self : (p : Part) → part_beq p p ≡ true
part_beq_self http = refl
part_beq_self tcp = refl
part_beq_self tls = refl

from_server :
    (s : Running) (p : Part)
    → s.result ≡ none
    → s.err_c ≡ none
    → s.phase p ≡ serving
    → outcome p s ≡ broken
    → Returns 3 s
unfolding after_serving
from_server s p runs room at b =
    Returns-later 2 s (return_from p s) (returns p at (λ e. absurd (cc)))
      (from_sender (return_from p s) p (error_of p) runs room (rw (part_beq_self p, b) refl))

Phase-cases : (p : Phase) → (p ≡ serving) ⊎ ((e : RunError) × (p ≡ sends e)) ⊎ (p ≡ gone)
Phase-cases serving = inl refl
Phase-cases (sends e) = inr (inl (e, refl))
Phase-cases gone = inr (inr refl)

Served-cases : (o : Served) → (o ≡ broken) ⊎ (o ≢ broken)
Served-cases still_accepting = inr (λ e. absurd (cc))
Served-cases ended = inr (λ e. absurd (cc))
Served-cases broken = inl refl

Accepting-cases : (o : Served) → (o ≡ still_accepting) ⊎ (o ≢ still_accepting)
Accepting-cases still_accepting = inl refl
Accepting-cases ended = inr (λ e. absurd (cc))
Accepting-cases broken = inr (λ e. absurd (cc))

abbrev pub CanMove : Running → Type 0
CanMove s = (t : Running) × Step s t

-- A server that goes on is closed from outside, for one thing.
serving_moves :
    (s : Running) (p : Part) → s.phase p ≡ serving → outcome p s ≡ still_accepting → CanMove s
unfolding outcome
serving_moves s http at goes = elim (Option-cases s.http_end) [
  | inl unended ↦ (end_http serve_closed s, serve_ends serve_closed at unended)
  | inr (e, is) ↦ absurd (ended_not e s.http_end is goes)
]
  where
    ended_not :
        (e : ServeEnd) (o : Option ServeEnd) → o ≡ some e → serve_outcome o ≢ still_accepting
    ended_not e none is goes = absurd (cc)
    ended_not e (some serve_closed) is goes = absurd (cc)
    ended_not e (some serve_failed) is goes = absurd (cc)
serving_moves s tcp at goes =
    (hear tcp listener_closed s, hears tcp listener_closed (λ e. absurd (cc)) at goes)
serving_moves s tls at goes =
    (hear tls listener_closed s, hears tls listener_closed (λ e. absurd (cc)) at goes)

module _ {s : Running} (r : Reach s) where
  within : (m n : ℕ) → n ≤ m → Returns n s → ReturnsWithin m s
  within m n less (t, e, steps, done) =
      (t, e, n, less, steps, done, (Reach-IsRun (Reach-Steps r steps)).returned e done)

  -- A server failed, and nothing has come from any.
  failed_returns :
      (p : Part) → s.result ≡ none → s.err_c ≡ none → outcome p s ≡ broken → ReturnsWithin 3 s
  failed_returns p runs room b = elim (Phase-cases (s.phase p)) [
    | inl at ↦ within 3 3 (omega arith) (from_server s p runs room at b)
    | inr (inl (e, at)) ↦ within 3 2 (omega arith) (from_sender s p e runs room at)
    | inr (inr at) ↦
        let (e, came) = subst (IsPhase p s) at ((Reach-IsRun r).phases p) b in
        elim came [ inl c ↦ absurd (cc) | inr c ↦ absurd (cc) ]
  ]

  -- One of three.
  any_failed : ((p : Part) × (outcome p s ≡ broken)) ⊎ ((p : Part) → outcome p s ≢ broken)
  any_failed = elim (Served-cases (outcome http s)) [
    | inl b ↦ inl (http, b)
    | inr a ↦ elim (Served-cases (outcome tcp s)) [
      | inl b ↦ inl (tcp, b)
      | inr c ↦ elim (Served-cases (outcome tls s)) [
        | inl b ↦ inl (tls, b)
        | inr d ↦ inr (none_of a c d)
      ]
    ]
  ]
    where
      none_of :
          outcome http s ≢ broken
          → outcome tcp s ≢ broken
          → outcome tls s ≢ broken
          → (p : Part) → outcome p s ≢ broken
      none_of a c d http = a
      none_of a c d tcp = c
      none_of a c d tls = d

  -- When all three goroutines are at their end and no server has failed.
  none_moves :
      ((p : Part) → s.phase p ≡ gone)
      → ((p : Part) → outcome p s ≢ broken)
      → (t : Running) → ¬ Step s t
  none_moves over ok t st = stuck t st
    where
      nobody : (e : RunError) → s.err_c ≡ some e → ⊥
      nobody e came = let (p, _, b) = (Reach-IsRun r).buffered e came in ok p b

      stuck : (t : Running) → Step s t → ⊥
      stuck t (hears p a not_http at unended) = let o = over p in absurd (cc)
      stuck t (serve_ends e at unended) = let o = over http in absurd (cc)
      stuck t (returns p at ends) = let o = over p in absurd (cc)
      stuck t (sends_error p e at room) = let o = over p in absurd (cc)
      stuck t (receives_error e runs came) = nobody e came

  -- A goroutine that is not at its end has a step, where its server has not failed.
  part_moves : (p : Part) → outcome p s ≢ broken → (s.phase p ≡ gone) ⊎ CanMove s
  part_moves p ok = elim (Phase-cases (s.phase p)) [
    | inr (inr over) ↦ inl over
    | inr (inl (e, at)) ↦ absurd (ok (subst (IsPhase p s) at ((Reach-IsRun r).phases p)).1)
    | inl at ↦ elim (Accepting-cases (outcome p s)) [
      | inr done ↦ inr (return_from p s, returns p at done)
      | inl goes ↦ inr (serving_moves s p at goes)
    ]
  ]

  all_move : ((p : Part) → outcome p s ≢ broken) → ((p : Part) → s.phase p ≡ gone) ⊎ CanMove s
  all_move ok = elim (part_moves http (ok http)) [
    | inr m ↦ inr m
    | inl a ↦ elim (part_moves tcp (ok tcp)) [
      | inr m ↦ inr m
      | inl b ↦ elim (part_moves tls (ok tls)) [ inr m ↦ inr m | inl c ↦ inl (all_of a b c) ]
    ]
  ]
    where
      all_of :
          s.phase http ≡ gone
          → s.phase tcp ≡ gone
          → s.phase tls ≡ gone
          → (p : Part) → s.phase p ≡ gone
      all_of a b c http = a
      all_of a b c tcp = b
      all_of a b c tls = c

  goes_on_or_waits :
      ((p : Part) → outcome p s ≢ broken)
      → CanMove s ⊎ (((p : Part) → s.phase p ≡ gone) × ((t : Running) → ¬ Step s t))
  goes_on_or_waits ok = elim (all_move ok) [
    | inr m ↦ inl m
    | inl over ↦ inr (over, none_moves over ok)
  ]

  -- At every moment one of these holds. `Run` has returned an error that one of its servers failed
  -- with. Or it has not returned and no server has failed, and then a goroutine has a step, or all
  -- three are at their end, as after `Close`, and nothing has a step, so that `Run` waits for ever.
  -- Or it has not returned, and in at most three steps of the goroutines and its own it can return an
  -- error that a server failed with.
  pub run_returns :
      ((e : RunError) × (s.result ≡ some e) × HasCause e s)
      ⊎ ((s.result ≡ none)
          × ((p : Part) → outcome p s ≢ broken)
          × (CanMove s ⊎ (((p : Part) → s.phase p ≡ gone) × ((t : Running) → ¬ Step s t))))
      ⊎ ((s.result ≡ none) × ReturnsWithin 3 s)
  run_returns = elim (Option-cases s.result) [
    | inr (e, done) ↦ inl (e, done, (Reach-IsRun r).returned e done)
    | inl runs ↦ elim (Option-cases s.err_c) [
      | inr (e, came) ↦ inr (inr (runs, within 3 1 (omega arith) (from_buffer s e runs came)))
      | inl room ↦ elim any_failed [
        | inl (p, b) ↦ inr (inr (runs, failed_returns p runs room b))
        | inr ok ↦ inr (inl (runs, ok, goes_on_or_waits ok))
      ]
    ]
  ]
