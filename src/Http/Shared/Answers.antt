-- ===== src/Http/Shared/Answers.antt =====
-- Requests whose values can be parsed, beside the handler that answers one alone.
use rsync_proxy.Base.{
  ℕ, ◌≡◌, refl, ap, subst, ◌∙◌, ◌≢◌, ◌⊎◌, inl, inr, Bool, false, none, ◌==◌, Bool-cases,
  nat_beq_iff,
}
use rsync_proxy.Server.{Server}
use rsync_proxy.Http.{Outside, force_discover_of, upstream_modules}
use rsync_proxy.Http.Messages.{Request, Response}
use rsync_proxy.Http.Shared.{
  Phase, waiting, parsed, answered, Handlers, check, set_phase, Step, begun, checked, Reach, start,
  next,
}
use rsync_proxy.Http.Shared.Begin.{begin_cases}

-- Of one request: where `err` was read or will be, it is nil, and the answer is that of the handler.
abbrev IsAnswered : Outside → Server → Request → Bool → Phase → Type 0
IsAnswered o s r err waiting = Unit
IsAnswered o s r err (parsed f) = (err ≡ false) × (check o s r f false ≡ upstream_modules o s r)
IsAnswered o s r err (answered a) = a ≡ upstream_modules o s r

-- Another request may only make `err` nil.
IsAnswered-later :
    (o : Outside) (s : Server) (r : Request) (err after : Bool) (p : Phase)
    → (after ≡ err) ⊎ (after ≡ false)
    → IsAnswered o s r err p
    → IsAnswered o s r after p
IsAnswered-later o s r err after waiting x h = tt
IsAnswered-later o s r err after (parsed f) (inl same) (is_nil, a) = (same ∙ is_nil, a)
IsAnswered-later o s r err after (parsed f) (inr is_nil) (_, a) = (is_nil, a)
IsAnswered-later o s r err after (answered a) x h = h

module _ (o : Outside) (s : Server) (requests : ℕ → Request)
    (well : (i : ℕ) → force_discover_of (requests i).query ≢ none) where
  abbrev AllAnswered : Handlers → Type 0
  AllAnswered h = (j : ℕ) → IsAnswered o s (requests j) h.err (h.phase j)

  -- One request moves, the others are where they were.
  set_phase-AllAnswered :
      (i : ℕ) (p : Phase) (err : Bool) (h : Handlers)
      → AllAnswered h
      → (err ≡ h.err) ⊎ (err ≡ false)
      → IsAnswered o s (requests i) err p
      → AllAnswered (record { err = err; phase = set_phase i p h.phase })
  set_phase-AllAnswered i p err h all x mine j = elim (Bool-cases (j == i)) [
    | inl same ↦ rw (same, (nat_beq_iff j i).0 same) mine
    | inr other ↦ rw other (IsAnswered-later o s (requests j) h.err err (h.phase j) x (all j))
  ]

  Step-AllAnswered : {h k : Handlers} → Step o s requests h k → AllAnswered h → AllAnswered k
  Step-AllAnswered {h} (begun i at) all = elim (begin_cases o s (requests i) h.err (well i)) [
    | inl b ↦ rw b (set_phase-AllAnswered i _ h.err h all (inl refl) refl)
    | inr (f, b, a) ↦ rw b (set_phase-AllAnswered i (parsed f) false h all (inr refl) (refl, a))
  ]
  Step-AllAnswered {h} (checked i f at) all =
      let (is_nil, a) = subst (IsAnswered o s (requests i) h.err) at (all i) in
      set_phase-AllAnswered i _ h.err h all (inl refl) (ap (check o s (requests i) f) is_nil ∙ a)

  Reach-AllAnswered : {h : Handlers} → Reach o s requests h → AllAnswered h
  Reach-AllAnswered (start err) = λ j. tt
  Reach-AllAnswered (next r st) = Step-AllAnswered st (Reach-AllAnswered r)

  -- If in no request `force_discover` has a first value that cannot be parsed, then however the
  -- requests take turns, and whatever `err` was at first, each that is answered has the answer that
  -- the handler gives to it alone.
  pub requests_answered :
      (i : ℕ) (a : Response) {h : Handlers}
      → Reach o s requests h
      → h.phase i ≡ answered a
      → a ≡ upstream_modules o s (requests i)
  requests_answered i a {h} r at =
      subst (IsAnswered o s (requests i) h.err) at (Reach-AllAnswered r i)
