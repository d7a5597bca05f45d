-- ===== src/Counters/Totals.antt =====
-- The totals of the server against the counters of modules and upstreams, while connections run
-- side by side.
use rsync_proxy.Counters.Fields.{completed_field, sent_field, received_field, sum_of, width, Field}
use rsync_proxy.Base.{
  ℕ, ◌+◌, ◌%◌, ◌≡◌, refl, sym, subst, ◌∙◌, ◌≢◌, inl, inr, List, [], ◌∷◌, arith, All, bytes_eq,
  pair_eq, nat_eq,
}
use rsync_proxy.Relay.Effects.{Effect}
use rsync_proxy.Relay.Script.{Session, blocked}
use rsync_proxy.Relay.Transfers.{
  weigh, done_count, done_sent, done_received, module_count, module_sent, module_received,
  IsCounted, relay-IsCounted,
}
use rsync_proxy.Relay.{Setting, relay}
use rsync_proxy.Counters.{ConnInfo, Counters, no_counters, record_effect}

-- Effects of several connections, each with the entry of its connection.
abbrev pub Event : Type 0
Event = ConnInfo × Effect

unfoldable pub record_all : List Event → Counters → Counters
unfolding record_effect
record_all [] c = c
record_all ((info, e) ∷ es) c = record_all es (record_effect info e c)

-- `zs` has the members of `xs` and of `ys`, each in their order.
pub data Merge {ℓ} {A : Type ℓ} : List A → List A → List A → Type ℓ where
  both_end : Merge [] [] []
  from_left : {x : A} {xs ys zs : List A} → Merge xs ys zs → Merge (x ∷ xs) ys (x ∷ zs)
  from_right : {y : A} {xs ys zs : List A} → Merge xs ys zs → Merge xs (y ∷ ys) (y ∷ zs)

-- One connection: what `relay` finds, and its entry.
pub record Run : Type 0 where
  pub info : ConnInfo
  pub setting : Setting
  pub session : Session

abbrev at_start : Session → Session
at_start s = record s { effects = [] }

abbrev tag : ConnInfo → List Effect → List Event
tag info [] = []
tag info (e ∷ es) = (info, e) ∷ tag info es

abbrev pub events : Run → List Event
events r = tag r.info (relay r.setting (at_start r.session)).1.effects

-- Any interleaving of the effects of connections.
pub data Interleaved : List Run → List Event → Type 0 where
  no_runs : Interleaved [] []
  one_more :
      {runs : List Run} {es fs : List Event} (r : Run)
      → Interleaved runs es
      → Merge (events r) es fs
      → Interleaved (r ∷ runs) fs

weigh-Merge {ℓ} :
    {A : Type ℓ} {xs ys zs : List A} (f : A → ℕ)
    → Merge xs ys zs
    → weigh f zs ≡ weigh f xs + weigh f ys
weigh-Merge f both_end = omega arith
weigh-Merge f (from_left m) = omega (arith, weigh-Merge f m)
weigh-Merge f (from_right m) = omega (arith, weigh-Merge f m)

module _ (f : Field) where
  record_all-total :
      (es : List Event) (c : Counters)
      → f.total (record_all es c) % width ≡ (f.total c + weigh (λ p. f.done p.1) es) % width
  unfolding record_all
  record_all-total [] c = omega arith
  record_all-total ((info, e) ∷ es) c =
      omega (arith, record_all-total es (record_effect info e c), f.total_step info e c)

  record_all-part :
      (es : List Event) (c : Counters)
      → sum_of f.part (record_all es c).module_counters % width
        ≡ (sum_of f.part c.module_counters + weigh (λ p. f.parted p.1) es) % width
  unfolding record_all
  record_all-part [] c = omega arith
  record_all-part ((info, e) ∷ es) c =
      omega (arith, record_all-part es (record_effect info e c), f.part_step info e c)

weigh-tag :
    (f : Effect → ℕ) (info : ConnInfo) (es : List Effect)
    → weigh (λ (p : Event). f p.1) (tag info es) ≡ weigh f es
weigh-tag f info [] = refl
weigh-tag f info (e ∷ es) = omega (arith, weigh-tag f info es)

-- The connection has come to its end.
abbrev pub Ended : Run → Type 0
Ended r = (relay r.setting (at_start r.session)).0 ≢ blocked

run-IsCounted : (r : Run) → Ended r → IsCounted (relay r.setting (at_start r.session)).1.effects
run-IsCounted r ended = elim (relay-IsCounted r.setting (at_start r.session)) [
  | inl waits ↦ absurd (ended waits)
  | inr (es, is, h) ↦ subst IsCounted (sym is) h
]

abbrev OnBothSides : (Effect → ℕ) → (Effect → ℕ) → List Event → Type 0
OnBothSides f g es = weigh (λ (p : Event). f p.1) es ≡ weigh (λ (p : Event). g p.1) es

weights_agree :
    {xs ys zs : List Event} (f g : Effect → ℕ)
    → Merge xs ys zs
    → OnBothSides f g xs
    → OnBothSides f g ys
    → OnBothSides f g zs
weights_agree f g m a b =
    weigh-Merge (λ (p : Event). f p.1) m
    ∙ omega (arith, a, b)
    ∙ sym (weigh-Merge (λ (p : Event). g p.1) m)

all_weights_agree :
    {runs : List Run} {es : List Event}
    → Interleaved runs es
    → All Ended runs
    → OnBothSides done_count module_count es
      × OnBothSides done_sent module_sent es
      × OnBothSides done_received module_received es
all_weights_agree no_runs h = (refl, refl, refl)
all_weights_agree (one_more r inner m) (h, hs) =
    let rest = all_weights_agree inner hs in
    let own = run-IsCounted r h in
    let es = (relay r.setting (at_start r.session)).1.effects in
    (
      weights_agree done_count module_count m
          (weigh-tag done_count r.info es ∙ own.counts ∙ sym (weigh-tag module_count r.info es))
          rest.0,
      weights_agree done_sent module_sent m
          (weigh-tag done_sent r.info es ∙ own.sent ∙ sym (weigh-tag module_sent r.info es)) rest.1,
      weights_agree done_received module_received m
          (weigh-tag done_received r.info es
            ∙ own.received
            ∙ sym (weigh-tag module_received r.info es))
          rest.2,
    )

field_agrees :
    (f : Field) (es : List Event)
    → f.total no_counters ≡ 0
    → OnBothSides f.done f.parted es
    → f.total (record_all es no_counters) % width
      ≡ sum_of f.part (record_all es no_counters).module_counters % width
field_agrees f es z both =
    omega (arith, record_all-total f es no_counters, record_all-part f es no_counters, z, both)

-- When the connections that ran side by side since the start, their effects interleaved in any way,
-- have all ended, then the totals of the server are the sums over modules and upstreams: of the
-- finished transfers, of the bytes sent and of those received, modulo 2^64.
pub totals_agree :
    (runs : List Run) (es : List Event)
    → All Ended runs
    → Interleaved runs es
    → ((record_all es no_counters).completed_conn_count % width
        ≡ sum_of (λ m. m.completed) (record_all es no_counters).module_counters % width)
      × ((record_all es no_counters).sent_bytes_total % width
          ≡ sum_of (λ m. m.sent_bytes) (record_all es no_counters).module_counters % width)
      × ((record_all es no_counters).recv_bytes_total % width
          ≡ sum_of (λ m. m.recv_bytes) (record_all es no_counters).module_counters % width)
totals_agree runs es h i =
    let (a, b, c) = all_weights_agree i h in
    (
      field_agrees completed_field es refl a,
      field_agrees sent_field es refl b,
      field_agrees received_field es refl c,
    )
