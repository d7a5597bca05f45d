-- ===== src/Listeners/Run/Causes.antt =====
-- Why `Run` returns.
use rsync_proxy.Base.{
  ◌≡◌, refl, sym, ap, subst, ◌∙◌, ◌⊎◌, inl, inr, Bool, true, false, none, some, Bool-cases,
}
use rsync_proxy.Listeners.{Accepted, Served, still_accepting, ended, broken}
use rsync_proxy.Listeners.Run.{
  Part, http, tcp, tls, ServeEnd, RunError, Phase, serving, sends, gone, Running, part_beq, update,
  outcome, error_of, after_serving, hear, end_http, return_from, send, receive_error, Step, hears,
  serve_ends, returns, sends_error, receives_error, start_run, Reach, start, next,
}

-- A server failed with the error.
abbrev pub HasCause : RunError → Running → Type 0
HasCause e s = (p : Part) × (e ≡ error_of p) × (outcome p s ≡ broken)

abbrev HasArrived : Running → Type 0
HasArrived s = (e : RunError) × ((s.err_c ≡ some e) ⊎ (s.result ≡ some e))

-- Of a goroutine: it sends only the error that its server failed with, and when it is gone after a
-- failure the channel has got an error, or `Run`.
abbrev pub IsPhase : Part → Running → Phase → Type 0
IsPhase p s serving = Unit
IsPhase p s (sends e) = (e ≡ error_of p) × (outcome p s ≡ broken)
IsPhase p s gone = outcome p s ≡ broken → HasArrived s

pub record IsRun (s : Running) : Type 0 where
  pub phases : (p : Part) → IsPhase p s (s.phase p)
  pub buffered : (e : RunError) → s.err_c ≡ some e → HasCause e s
  pub returned : (e : RunError) → s.result ≡ some e → HasCause e s

part_beq_eq : (p q : Part) → part_beq p q ≡ true → p ≡ q
part_beq_eq http http e = refl
part_beq_eq tcp tcp e = refl
part_beq_eq tls tls e = refl
part_beq_eq http tcp e = absurd (cc)
part_beq_eq http tls e = absurd (cc)
part_beq_eq tcp http e = absurd (cc)
part_beq_eq tcp tls e = absurd (cc)
part_beq_eq tls http e = absurd (cc)
part_beq_eq tls tcp e = absurd (cc)

-- A family of values with one changed.
update-All {κ} :
    {A : Type 0} (P : Part → A → Type κ) (p : Part) (a : A) (f : Part → A)
    → P p a
    → ((q : Part) → part_beq q p ≡ false → P q (f q))
    → (q : Part) → P q (update p a f q)
update-All P p a f h k q = elim (Bool-cases (part_beq q p)) [
  | inl e ↦ rw (e, part_beq_eq q p e) h
  | inr e ↦ rw e (k q e)
]

-- The outcomes stay what they are, or come from one that was open.
abbrev Extends : Running → Running → Type 0
Extends s t =
    (p : Part)
    → (outcome p t ≡ outcome p s) ⊎ ((s.phase p ≡ serving) × (outcome p s ≡ still_accepting))

Extends-hear :
    (p : Part) (a : Accepted) (s : Running)
    → s.phase p ≡ serving
    → outcome p s ≡ still_accepting
    → Extends s (hear p a s)
unfolding outcome
Extends-hear p a s h e http = inl refl
Extends-hear p a s h e tcp = elim (Bool-cases (part_beq tcp p)) [
  | inl same ↦ inr (
      subst (λ r. (s.phase r ≡ serving) × (outcome r s ≡ still_accepting))
        (sym (part_beq_eq tcp p same)) (h, e))
  | inr other ↦ inl (rw (other, outcome) refl)
]
Extends-hear p a s h e tls = elim (Bool-cases (part_beq tls p)) [
  | inl same ↦ inr (
      subst (λ r. (s.phase r ≡ serving) × (outcome r s ≡ still_accepting))
        (sym (part_beq_eq tls p same)) (h, e))
  | inr other ↦ inl (rw (other, outcome) refl)
]

Extends-end_http :
    (e : ServeEnd) (s : Running)
    → s.phase http ≡ serving
    → s.http_end ≡ none
    → Extends s (end_http e s)
unfolding outcome
Extends-end_http e s h none_yet http = inr (h, rw none_yet refl)
Extends-end_http e s h none_yet tcp = inl refl
Extends-end_http e s h none_yet tls = inl refl

-- Where only a goroutine's phase and the channel change.
outcome_same :
    (s t : Running)
    → t.heard ≡ s.heard
    → t.http_end ≡ s.http_end
    → (p : Part) → outcome p t ≡ outcome p s
unfolding outcome
outcome_same s t a b http = rw b refl
outcome_same s t a b tcp = rw a refl
outcome_same s t a b tls = rw a refl

Extends-same : (s t : Running) → t.heard ≡ s.heard → t.http_end ≡ s.http_end → Extends s t
Extends-same s t a b p = inl (outcome_same s t a b p)

-- A failure stays one, and what was no failure of a goroutine that is past its server is none.
broken_before :
    (s t : Running) (p : Part) → Extends s t → outcome p s ≡ broken → outcome p t ≡ broken
broken_before s t p x b = elim (x p) [ inl same ↦ same ∙ b | inr (_, unended) ↦ absurd (cc) ]

broken_after :
    (s t : Running) (p : Part)
    → Extends s t
    → s.phase p ≡ gone
    → outcome p t ≡ broken
    → outcome p s ≡ broken
broken_after s t p x g b = elim (x p) [ inl same ↦ sym same ∙ b | inr (at, _) ↦ absurd (cc) ]

HasCause-later : (s t : Running) (e : RunError) → Extends s t → HasCause e s → HasCause e t
HasCause-later s t e x (p, is, b) = (p, is, broken_before s t p x b)

IsPhase-later :
    (s t : Running) (p : Part) (ph : Phase)
    → Extends s t
    → (HasArrived s → HasArrived t)
    → s.phase p ≡ ph
    → IsPhase p s ph
    → IsPhase p t ph
IsPhase-later s t p serving x arrives at h = tt
IsPhase-later s t p (sends e) x arrives at (is, b) = (is, broken_before s t p x b)
IsPhase-later s t p gone x arrives at h = λ b. arrives (h (broken_after s t p x at b))

module _ {s : Running} (h : IsRun s) where
  -- When the channel and the result stay.
  IsRun-heard :
      (t : Running)
      → Extends s t
      → t.phase ≡ s.phase
      → t.err_c ≡ s.err_c
      → t.result ≡ s.result
      → IsRun t
  IsRun-heard t x ph buffer result = record {
    phases = λ p. subst (IsPhase p t) (ap (λ f. f p) (sym ph)) (
        IsPhase-later s t p (s.phase p) x
          (λ (e, k). (e, elim k [ inl b ↦ inl (buffer ∙ b) | inr r ↦ inr (result ∙ r) ])) refl
          (h.phases p));
    buffered = λ e b. HasCause-later s t e x (h.buffered e (sym buffer ∙ b));
    returned = λ e r. HasCause-later s t e x (h.returned e (sym result ∙ r));
  }

  IsPhase-after :
      (p : Part) (t : Running) (o : Served) → outcome p t ≡ o → IsPhase p t (after_serving p o)
  unfolding after_serving
  IsPhase-after p t still_accepting e = tt
  IsPhase-after p t ended e = λ b. absurd (cc)
  IsPhase-after p t broken e = (refl, e)

  IsRun-return_from : (p : Part) → IsRun (return_from p s)
  IsRun-return_from p =
      let x = Extends-same s (return_from p s) refl refl in
      record {
        phases =
            update-All (λ q ph. IsPhase q (return_from p s) ph) p _ s.phase
              (IsPhase-after p (return_from p s) (outcome p s)
                (outcome_same s (return_from p s) refl refl p))
              (λ q other.
                IsPhase-later s (return_from p s) q (s.phase q) x (λ k. k) refl (h.phases q));
        buffered = λ e b. HasCause-later s (return_from p s) e x (h.buffered e b);
        returned = λ e r. HasCause-later s (return_from p s) e x (h.returned e r);
      }

  IsRun-send : (p : Part) (e : RunError) → s.phase p ≡ sends e → IsRun (send p e s)
  IsRun-send p e at =
      let x = Extends-same s (send p e s) refl refl in
      let (is, b) = subst (IsPhase p s) at (h.phases p) in
      record {
        phases =
            update-All (λ q ph. IsPhase q (send p e s) ph) p gone s.phase (λ _. (e, inl refl))
              (λ q other.
                IsPhase-later s (send p e s) q (s.phase q) x (λ _. (e, inl refl)) refl
                  (h.phases q));
        buffered = λ e' sent. HasCause-later s (send p e s) e' x (p, cc, b);
        returned = λ e' r. HasCause-later s (send p e s) e' x (h.returned e' r);
      }

  IsRun-receive : (e : RunError) → s.err_c ≡ some e → IsRun (receive_error e s)
  IsRun-receive e came =
      let x = Extends-same s (receive_error e s) refl refl in
      record {
        phases = λ q.
            IsPhase-later s (receive_error e s) q (s.phase q) x (λ _. (e, inr refl)) refl
              (h.phases q);
        buffered = λ e' b. absurd (cc);
        returned = λ e' r. HasCause-later s (receive_error e s) e' x (h.buffered e' (cc));
      }

at_start : (b : Bool) (p : Part) → IsPhase p (start_run b) ((start_run b).phase p)
unfolding outcome
at_start b http = tt
at_start b tcp = tt
at_start true tls = tt
at_start false tls = λ b. absurd (cc)

IsRun-start : (with_tls : Bool) → IsRun (start_run with_tls)
IsRun-start with_tls = record {
  phases = at_start with_tls;
  buffered = λ e b. absurd (cc);
  returned = λ e b. absurd (cc);
}

Step-IsRun : {s t : Running} → Step s t → IsRun s → IsRun t
Step-IsRun {s} (hears p a not_http at unended) h =
    IsRun-heard h (hear p a s) (Extends-hear p a s at unended) refl refl refl
Step-IsRun {s} (serve_ends e at unended) h =
    IsRun-heard h (end_http e s) (Extends-end_http e s at unended) refl refl refl
Step-IsRun {s} (returns p at over) h = IsRun-return_from h p
Step-IsRun {s} (sends_error p e at room) h = IsRun-send h p e at
Step-IsRun {s} (receives_error e runs came) h = IsRun-receive h e came

pub Reach-IsRun : {s : Running} → Reach s → IsRun s
Reach-IsRun (start with_tls) = IsRun-start with_tls
Reach-IsRun (next r st) = Step-IsRun st (Reach-IsRun r)
