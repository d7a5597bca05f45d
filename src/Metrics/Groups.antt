-- ===== src/Metrics/Groups.antt =====
-- The samples by module and upstream: how many there are, and that none comes twice.
use rsync_proxy.Base.{
  ℕ, zero, suc, ◌+◌, ◌≡◌, refl, sym, ap, subst, ◌∙◌, ◌≢◌, Bool, true, false, Option, none, some,
  List, [], ◌∷◌, ◌++◌, arith, if◌then◌else◌, Bytes, codes, All, Distinct, drop, sort_by,
  sort_by-HasDistinctKeys, ◌=?◌, bytes_eq, pair_beq, pair_beq_iff, pair_eq, nat_eq, lookup,
  lookup-insert, HasDistinctKeys, insert-HasDistinctKeys,
}
use mathlib.Core.Option.{some-injective}
use rsync_proxy.Counters.{
  ConnInfo, Counters, ModuleCounters, no_counters, module_key, record_effect, add_module,
  change_info, set_info_module, set_info_upstream,
}
use rsync_proxy.Counters.Totals.{Event, record_all}
use rsync_proxy.Relay.Effects.{Effect, set_module, set_upstream, count_module}
use rsync_proxy.Metrics.Labels.{read_value, read_value-escape, prometheus_escape_label_value}
use rsync_proxy.Metrics.Samples.{
  Sample, key_label, key_samples, by_key, connection_counts, group_samples, module_samples,
}

-- The number of connections of a module and upstream.
abbrev pub how_many : Bytes × Bytes → List ConnInfo → ℕ
how_many key [] = 0
how_many key (info ∷ rest) =
    let n = how_many key rest in
    if module_key info.module_name info.upstream =? key then suc n else n

abbrev pub grown : ℕ → Option ℕ → Option ℕ
grown zero before = before
grown (suc n) none = some (suc n)
grown (suc n) (some k) = some (k + suc n)

one_more :
    (n : ℕ) (a : Option ℕ) → grown n (some (elim a [ none ↦ 1 | some k ↦ k + 1 ])) ≡ grown (suc n) a
one_more zero none = refl
one_more zero (some k) = ap some (omega arith)
one_more (suc n) none = ap some (omega arith)
one_more (suc n) (some k) = ap some (omega arith)

connection_counts_from :
    (key : Bytes × Bytes) (conns : List ConnInfo) (counts : List ((Bytes × Bytes) × ℕ))
    → lookup key (connection_counts conns counts) ≡ grown (how_many key conns) (lookup key counts)
unfolding connection_counts
connection_counts_from key [] counts = refl
connection_counts_from key (info ∷ rest) counts =
    let own = module_key info.module_name info.upstream in
    connection_counts_from key rest _
    ∙ ap (grown (how_many key rest)) (lookup-insert own key _ counts)
    ∙ step (how_many key rest) (pair_beq own key) (lookup own counts) (lookup key counts)
        (λ e. ap (λ k. lookup k counts) ((pair_beq_iff own key).0 e))
  where
    step :
        (n : ℕ) (hit : Bool) (a b : Option ℕ)
        → ((hit ≡ true) → a ≡ b)
        → grown n (if hit then some (elim a [ none ↦ 1 | some k ↦ k + 1 ]) else b)
          ≡ grown (if hit then suc n else n) b
    step n false a b same = refl
    step n true a b same = one_more n a ∙ ap (grown (suc n)) (same refl)

-- The count of a module and upstream is the number of its connections, and one without connections
-- has no count.
lookup-connection_counts :
    (key : Bytes × Bytes) (conns : List ConnInfo)
    → lookup key (connection_counts conns []) ≡ grown (how_many key conns) none
unfolding lookup
lookup-connection_counts key conns = connection_counts_from key conns []

-- A label of a module and upstream tells which they are.
key_label-injective : (k j : Bytes × Bytes) → key_label k ≡ key_label j → k ≡ j
key_label-injective (m, u) (n, v) e =
    let rest : Bytes → Bytes =
      λ w. codes ",upstream=\"" ++ (prometheus_escape_label_value w ++ codes "\"}") in
    let first : some (m, rest u) ≡ some (n, rest v) =
      sym (read_value-escape m (rest u))
      ∙ ap (λ s. read_value false (drop 9 s)) e
      ∙ read_value-escape n (rest v) in
    let both : (m, rest u) ≡ (n, rest v) = some-injective (m, rest u) (n, rest v) first in
    let second : some (u, codes "}") ≡ some (v, codes "}") =
      sym (read_value-escape u (codes "}"))
      ∙ ap (λ p. read_value false (drop 11 p.1)) both
      ∙ read_value-escape v (codes "}") in
    let last : (u, codes "}") ≡ (v, codes "}") =
      some-injective (u, codes "}") (v, codes "}") second in
    λ i. ((both i).0, (last i).0)

abbrev pub labels_of : List Sample → List Bytes
labels_of [] = []
labels_of (s ∷ rest) = s.labels ∷ labels_of rest

key_samples-Distinct {ℓ} :
    {A : Type ℓ} (value : A → ℕ) (m : List ((Bytes × Bytes) × A))
    → HasDistinctKeys m
    → Distinct (labels_of (key_samples value m))
key_samples-Distinct {A = A} value [] h = tt
key_samples-Distinct {A = A} value ((k, a) ∷ rest) h =
    (others rest h.0, key_samples-Distinct value rest h.1)
  where
    others :
        (r : List ((Bytes × Bytes) × A))
        → All (λ p. p.0 ≢ k) r
        → All (λ l. l ≢ key_label k) (labels_of (key_samples value r))
    others [] g = tt
    others ((j, b) ∷ r) g = ((λ e. g.0 (key_label-injective j k e)), others r g.1)

change_info_counters :
    (index : ℕ) (f : ConnInfo → ConnInfo) (c : Counters)
    → (change_info index f c).module_counters ≡ c.module_counters
change_info_counters index f c = ground arith

record_effect-HasDistinctKeys :
    (info : ConnInfo) (e : Effect) (c : Counters)
    → HasDistinctKeys c.module_counters
    → HasDistinctKeys (record_effect info e c).module_counters
unfolding record_effect add_module
record_effect-HasDistinctKeys info (count_module m u n k) c h =
    insert-HasDistinctKeys (module_key m u) _ c.module_counters h
record_effect-HasDistinctKeys info (set_module name) c h =
    subst HasDistinctKeys (sym (change_info_counters info.index (set_info_module name) c)) h
record_effect-HasDistinctKeys info (set_upstream name) c h =
    subst HasDistinctKeys (sym (change_info_counters info.index (set_info_upstream name) c)) h
record_effect-HasDistinctKeys info e c h = h

record_all-HasDistinctKeys :
    (es : List Event) (c : Counters)
    → HasDistinctKeys c.module_counters
    → HasDistinctKeys (record_all es c).module_counters
unfolding record_all
record_all-HasDistinctKeys [] c h = h
record_all-HasDistinctKeys ((info, e) ∷ es) c h =
    record_all-HasDistinctKeys es (record_effect info e c)
      (record_effect-HasDistinctKeys info e c h)

connection_counts-HasDistinctKeys :
    (conns : List ConnInfo) (counts : List ((Bytes × Bytes) × ℕ))
    → HasDistinctKeys counts
    → HasDistinctKeys (connection_counts conns counts)
unfolding connection_counts
connection_counts-HasDistinctKeys [] counts h = h
connection_counts-HasDistinctKeys (info ∷ rest) counts h =
    connection_counts-HasDistinctKeys rest _
      (insert-HasDistinctKeys (module_key info.module_name info.upstream) _ counts h)

-- Whatever has been counted since the start, and whatever the names are, no two samples of a family
-- by module and upstream have the same labels: neither those of the counters nor those of the
-- connections that there are.
samples-Distinct :
    (value : ModuleCounters → ℕ) (es : List Event) (conns : List ConnInfo)
    → Distinct (labels_of (module_samples value (record_all es no_counters)))
      × Distinct (labels_of (group_samples conns))
unfolding module_samples group_samples
samples-Distinct value es conns =
    let counters = (record_all es no_counters).module_counters in
    let groups = connection_counts conns [] in
    (
      key_samples-Distinct value (sort_by by_key counters)
          (sort_by-HasDistinctKeys by_key counters (record_all-HasDistinctKeys es no_counters tt)),
      key_samples-Distinct (λ n. n) (sort_by by_key groups)
          (sort_by-HasDistinctKeys by_key groups (connection_counts-HasDistinctKeys conns [] tt)),
    )

-- Whatever has been counted since the start, and whatever the names are: no two samples of a family
-- by module and upstream have the same labels, neither those of the counters nor those of the
-- connections that there are; and the count of a module and upstream is the number of its
-- connections, where one without connections has no count.
pub group_samples_lem :
    (value : ModuleCounters → ℕ) (es : List Event) (conns : List ConnInfo) (key : Bytes × Bytes)
    → Distinct (labels_of (module_samples value (record_all es no_counters)))
      × Distinct (labels_of (group_samples conns))
      × (lookup key (connection_counts conns []) ≡ grown (how_many key conns) none)
group_samples_lem value es conns key =
    let (counted, grouped) = samples-Distinct value es conns in
    (counted, grouped, lookup-connection_counts key conns)
