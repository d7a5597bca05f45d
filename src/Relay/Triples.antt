-- ===== src/Relay/Triples.antt =====
-- What a part of `relay` can do: a predicate on its effects, on its error and on its result.
use rsync_proxy.Base.{
  ◌≡◌, refl, sym, ap, ◌∙◌, inl, inr, Bool, true, false, List, [], ◌∷◌, ◌++◌, append-nil,
  append_assoc, if◌then◌else◌, Bool-cases, Bytes, All, All-append,
}
use rsync_proxy.Wire.{read_line}
use rsync_proxy.Relay.Effects.{Effect, to_client, to_upstream}
use rsync_proxy.Relay.Script.{
  RelayError, Outcome, done, failed, blocked, Session, M, ◌>>=◌, ◌>>◌, bind_outcome, return, fail,
  block, tell, tell_all, finally, deferred, write_client, try_write_client, write_upstream,
  read_client, read_upstream, succeeds, read_buffer_size,
}

abbrev pub Ends : {A : Type 0} → (RelayError → Type 0) → (A → Type 0) → Outcome A → Type 0
Ends E D (done a) = D a
Ends E D (failed e) = E e
Ends E D blocked = Unit

abbrev pub Result :
    {A : Type 0}
    → (Effect → Type 0)
    → (RelayError → Type 0)
    → (A → Type 0)
    → Session
    → Outcome A × Session
    → Type 0
Result P E D s r = (es : List Effect) × (r.1.effects ≡ s.effects ++ es) × All P es × Ends E D r.0

-- From any session, `m` adds only effects in `P`, fails only with errors in `E`, and returns only
-- results in `D`.
pub record Does {A : Type 0} (P : Effect → Type 0) (E : RelayError → Type 0) (D : A → Type 0)
    (m : M A) : Type 0 where
  pub runs : (s : Session) → Result P E D s (m s)

abbrev pub Any : Unit {0} → Type 0
Any _ = Unit

module _ (P : Effect → Type 0) (E : RelayError → Type 0) where
  pub Does-return : {A : Type 0} (D : A → Type 0) (a : A) → D a → Does P E D (return a)
  unfolding return
  Does-return D a d = record { runs = λ s. ([], sym (append-nil s.effects), tt, d) }

  pub Does-fail : {A : Type 0} (D : A → Type 0) (e : RelayError) → E e → Does P E D (fail e)
  unfolding fail
  Does-fail D e h = record { runs = λ s. ([], sym (append-nil s.effects), tt, h) }

  pub Does-block : {A : Type 0} (D : A → Type 0) → Does P E D (block {A = A})
  unfolding block
  Does-block D = record { runs = λ s. ([], sym (append-nil s.effects), tt, tt) }

  pub Does-tell_all : (es : List Effect) → All P es → Does P E Any (tell_all es)
  unfolding tell_all
  Does-tell_all es h = record { runs = λ s. (es, refl, h, tt) }

  pub Does-tell : (e : Effect) → P e → Does P E Any (tell e)
  unfolding tell
  Does-tell e h = record { runs = λ s. (e ∷ [], refl, (h, tt), tt) }

  bind_Result :
      {A B : Type 0} (C : A → Type 0) (D : B → Type 0) (f : A → M B) (s : Session)
      (r : Outcome A × Session)
      → Result P E C s r
      → ((a : A) → C a → Does P E D (f a))
      → Result P E D s (bind_outcome r f)
  bind_Result C D f s (done a, t) (es, e, h, c) k =
      let (fs, e', h', d) = (k a c).runs t in
      (
        es ++ fs,
        e' ∙ ap (λ l. l ++ fs) e ∙ append_assoc s.effects es fs,
        All-append P es fs h h',
        d,
      )
  bind_Result C D f s (failed x, t) (es, e, h, c) k = (es, e, h, c)
  bind_Result C D f s (blocked, t) (es, e, h, c) k = (es, e, h, c)

  pub Does-bind :
      {A B : Type 0} (C : A → Type 0) (D : B → Type 0) (m : M A) (f : A → M B)
      → Does P E C m
      → ((a : A) → C a → Does P E D (f a))
      → Does P E D (m >>= f)
  unfolding ◌>>=◌
  Does-bind C D m f h k = record { runs = λ s. bind_Result C D f s (m s) (h.runs s) k }

  pub Does-then :
      {B : Type 0} (D : B → Type 0) (m : M (Unit {0})) (k : M B)
      → Does P E Any m
      → Does P E D k
      → Does P E D (m >> k)
  unfolding ◌>>◌
  Does-then D m k h g = record {
    runs = λ s. bind_Result Any D (λ _. k) s (m s) (h.runs s) (λ _ _. g);
  }

  pub Does-if :
      {A : Type 0} (D : A → Type 0) (b : Bool) (m k : M A)
      → Does P E D m
      → Does P E D k
      → Does P E D (if b then m else k)
  Does-if D true m k h g = h
  Does-if D false m k h g = g

  pub Does-else :
      {A : Type 0} (D : A → Type 0) (b : Bool) (m k : M A)
      → b ≡ false
      → Does P E D k
      → Does P E D (if b then m else k)
  Does-else D b m k e g = rw e g

  deferred_Result :
      {A : Type 0} (D : A → Type 0) (es : List Effect) (s : Session) (r : Outcome A × Session)
      → All P es
      → Result P E D s r
      → Result P E D s (deferred es r)
  deferred_Result D es s (done a, t) h (fs, e, g, d) =
      (fs ++ es, ap (λ l. l ++ es) e ∙ append_assoc s.effects fs es, All-append P fs es g h, d)
  deferred_Result D es s (failed x, t) h (fs, e, g, d) =
      (fs ++ es, ap (λ l. l ++ es) e ∙ append_assoc s.effects fs es, All-append P fs es g h, d)
  deferred_Result D es s (blocked, t) h (fs, e, g, d) = (fs, e, g, d)

  pub Does-finally :
      {A : Type 0} (D : A → Type 0) (es : List Effect) (m : M A)
      → All P es
      → Does P E D m
      → Does P E D (finally es m)
  unfolding finally
  Does-finally D es m h g = record { runs = λ s. deferred_Result D es s (m s) h (g.runs s) }

  pub Does-write_client :
      (b : Bytes) (e : RelayError) → P (to_client b) → E e → Does P E Any (write_client b e)
  unfolding write_client
  Does-write_client b e p q = record {
    runs = λ s. elim (Bool-cases (succeeds s.client_writes)) [
      | inl works ↦ rw works (to_client b ∷ [], refl, (p, tt), tt)
      | inr breaks ↦ rw breaks ([], sym (append-nil s.effects), tt, q)
    ];
  }

  pub Does-try_write_client : (b : Bytes) → P (to_client b) → Does P E Any (try_write_client b)
  unfolding try_write_client
  Does-try_write_client b p = record {
    runs = λ s. elim (Bool-cases (succeeds s.client_writes)) [
      | inl works ↦ rw works (to_client b ∷ [], refl, (p, tt), tt)
      | inr breaks ↦ rw breaks ([], sym (append-nil s.effects), tt, tt)
    ];
  }

  pub Does-write_upstream :
      (b : Bytes) (e : RelayError) → P (to_upstream b) → E e → Does P E Any (write_upstream b e)
  unfolding write_upstream
  Does-write_upstream b e p q = record {
    runs = λ s. elim (Bool-cases (succeeds s.upstream_writes)) [
      | inl works ↦ rw works (to_upstream b ∷ [], refl, (p, tt), tt)
      | inr breaks ↦ rw breaks ([], sym (append-nil s.effects), tt, q)
    ];
  }

  pub Does-read_client : (e : RelayError) → E e → Does P E (λ _. Unit) (read_client e)
  unfolding read_client
  Does-read_client e q = record {
    runs = λ s. elim (Bool-cases (read_line read_buffer_size s.client_in).failed) [
      | inl breaks ↦ rw breaks ([], sym (append-nil s.effects), tt, q)
      | inr works ↦ rw works ([], sym (append-nil s.effects), tt, tt)
    ];
  }

  pub Does-read_upstream : (e : RelayError) → E e → Does P E (λ _. Unit) (read_upstream e)
  unfolding read_upstream
  Does-read_upstream e q = record {
    runs = λ s. elim (Bool-cases (read_line read_buffer_size s.upstream_in).failed) [
      | inl breaks ↦ rw breaks ([], sym (append-nil s.effects), tt, q)
      | inr works ↦ rw works ([], sym (append-nil s.effects), tt, tt)
    ];
  }

Ends-weaken :
    {A : Type 0} (E E' : RelayError → Type 0) (D : A → Type 0)
    → ((e : RelayError) → E e → E' e)
    → (o : Outcome A) → Ends E D o
    → Ends E' D o
Ends-weaken E E' D k (done a) d = d
Ends-weaken E E' D k (failed e) h = k e h
Ends-weaken E E' D k blocked u = u

pub All-weaken :
    (P P' : Effect → Type 0)
    → ((e : Effect) → P e → P' e)
    → (es : List Effect) → All P es
    → All P' es
All-weaken P P' k [] h = tt
All-weaken P P' k (e ∷ es) (h, hs) = (k e h, All-weaken P P' k es hs)

pub Does-weaken :
    {A : Type 0} (P P' : Effect → Type 0) (E E' : RelayError → Type 0) (D : A → Type 0) (m : M A)
    → ((e : Effect) → P e → P' e)
    → ((e : RelayError) → E e → E' e)
    → Does P E D m
    → Does P' E' D m
Does-weaken P P' E E' D m f g h = record {
  runs = λ s.
      let (es, added, all, ends) = h.runs s in
      (es, added, All-weaken P P' f es all, Ends-weaken E E' D g (m s).0 ends);
}
