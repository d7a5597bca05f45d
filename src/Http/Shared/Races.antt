-- ===== src/Http/Shared/Races.antt =====
-- What a request with a value that cannot be parsed does to another one, and the other to it.
use rsync_proxy.Http.Shared.{
  set_phase, is_none, or_false, parse_force, waiting, parsed, answered, Handlers, first_value,
  answer_modules, begin, check, checks, begun, checked, Reach, next,
}
use rsync_proxy.Base.{
  ℕ, ◌≡◌, refl, sym, ap, subst, ◌∙◌, ◌≢◌, inl, inr, Bool, true, false, Option, none, some, [], ◌==◌,
  Bool-cases, Bytes, codes, bytes_beq, bytes_eq, pair_eq, nat_beq_iff, nat_eq, lookup,
}
use rsync_proxy.Server.{Server}
use rsync_proxy.Http.{Outside, is_get, get, parse_bool, bad_request, upstream_modules}
use rsync_proxy.Http.Messages.{Request, Response}
use rsync_proxy.Http.Shared.Begin.{named}

-- A GET with a name and a first value of `force_discover`.
pub record Asks (r : Request) (v : Bytes) : Type 0 where
  pub by_get : is_get r ≡ true
  pub has_name : bytes_beq (get (codes "name") r.query) [] ≡ false
  pub forces : first_value (lookup (codes "force_discover") r.query) ≡ some v

abbrev pub refuses : Response
refuses = bad_request (codes "invalid force_discover value")

begin-Asks :
    (o : Outside) (s : Server) (r : Request) (v : Bytes) (err : Bool)
    → Asks r v
    → begin o s r err ≡ parse_force o s r (some v) err
begin-Asks o s r v err a = (named o s r a.by_get a.has_name (some v) a.forces).0 err

answer-Asks :
    (o : Outside) (s : Server) (r : Request) (v : Bytes) (f : Option Bool)
    → Asks r v
    → parse_bool v ≡ f
    → upstream_modules o s r ≡ (elim f [ none ↦ refuses | some force ↦ answer_modules o s r force ])
answer-Asks o s r v f a = (named o s r a.by_get a.has_name (some v) a.forces).1 f

-- When the request has begun.
abbrev after_begin : ℕ → Bytes → Handlers → Handlers
after_begin i v h = record {
  err = is_none (parse_bool v);
  phase = set_phase i (parsed (or_false (parse_bool v))) h.phase;
}

eq_self : (i : ℕ) → (i == i) ≡ true
eq_self i = (nat_beq_iff i i).1 refl

ne_false : (i j : ℕ) → i ≢ j → (i == j) ≡ false
ne_false i j other = elim (Bool-cases (i == j)) [
  | inl e ↦ absurd (other ((nat_beq_iff i j).0 e))
  | inr e ↦ e
]

module _ (o : Outside) (s : Server) (requests : ℕ → Request) where
  after_begin-Reach :
      (i : ℕ) (v : Bytes) (h : Handlers)
      → Reach o s requests h
      → h.phase i ≡ waiting
      → Asks (requests i) v
      → Reach o s requests (after_begin i v h)
  after_begin-Reach i v h r at a =
      subst (Reach o s requests)
        (ap (λ (p, err). record { err = err; phase = set_phase i p h.phase })
          (begin-Asks o s (requests i) v h.err a))
        (next r (begun i at))

  -- First the one begins, then the other, then the first reads `err`.
  overtaken :
      (i j : ℕ) (v w : Bytes) (h : Handlers)
      → Reach o s requests h
      → h.phase i ≡ waiting
      → h.phase j ≡ waiting
      → (j == i) ≡ false
      → (i == j) ≡ false
      → Asks (requests i) v
      → Asks (requests j) w
      → (k : Handlers) × Reach o s requests k
        × (k.phase i
            ≡ answered (check o s (requests i) (or_false (parse_bool v)) (is_none (parse_bool w))))
  overtaken i j v w h r at_i at_j ji ij a b =
      let k = after_begin j w (after_begin i v h) in
      let begun_both =
        after_begin-Reach j w (after_begin i v h) (after_begin-Reach i v h r at_i a) (rw ji at_j)
          b in
      (
        checks o s requests i (or_false (parse_bool v)) k,
        next begun_both (checked i (or_false (parse_bool v)) (rw (ij, eq_self i) refl)),
        rw (eq_self i) refl,
      )

  -- Of two requests that have not begun, GETs with a name, let the first value of `force_discover`
  -- be parsed in the one, and not in the other. Then the one, which alone is answered with its
  -- modules or why there are none, can come to be refused for an invalid value, and the other, which
  -- alone is refused, can come to be answered as with the value false.
  pub shared_err_mixes :
      (i j : ℕ) (v w : Bytes) (force : Bool) (h : Handlers)
      → Reach o s requests h
      → h.phase i ≡ waiting
      → h.phase j ≡ waiting
      → i ≢ j
      → Asks (requests i) v
      → Asks (requests j) w
      → parse_bool v ≡ some force
      → parse_bool w ≡ none
      → ((upstream_modules o s (requests i) ≡ answer_modules o s (requests i) force)
          × ((k : Handlers) × Reach o s requests k × (k.phase i ≡ answered refuses)))
        × ((upstream_modules o s (requests j) ≡ refuses)
            × ((k : Handlers) × Reach o s requests k
                × (k.phase j ≡ answered (answer_modules o s (requests j) false))))
  unfolding check
  shared_err_mixes i j v w force h r at_i at_j other a b good bad =
      let ji = ne_false j i (λ e. other (sym e)) in
      let ij = ne_false i j other in
      let (k, rk, ak) = overtaken i j v w h r at_i at_j ji ij a b in
      let (l, rl, al) = overtaken j i w v h r at_j at_i ij ji b a in
      (
        (answer-Asks o s (requests i) v (some force) a good, (k, rk, ak ∙ (rw bad refl))),
        (answer-Asks o s (requests j) w none b bad, (l, rl, al ∙ (rw (good, bad) refl))),
      )
