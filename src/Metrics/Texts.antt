-- ===== src/Metrics/Texts.antt =====
-- Texts that keep to their line.
use rsync_proxy.Base.{
  ℕ, suc, ◌≡◌, refl, inl, inr, Bool, true, not, ◌&&◌, List, [], ◌∷◌, ◌++◌, arith, ◌==◌,
  Option-cases, decimal, decimal-All, decimal_ℤ, Bytes, codes, All, All-append, ℤ, bytes_eq,
  pair_eq, nat_eq, lookup, pos, negsuc,
}
use rsync_proxy.Counters.{ConnInfo}
use rsync_proxy.Discovery.Fields.{NoFeed, IsLine}
use rsync_proxy.Metrics.Labels.{
  prometheus_escape_label_value, prometheus_labels, prometheus_label_value_or_unknown, escape_byte,
  escape-cons,
}
use rsync_proxy.Metrics.Page.{Family}
use rsync_proxy.Metrics.Samples.{
  Sample, upstream_label, queue_samples, upstream_samples, key_samples, conn_samples, single,
}
use rsync_proxy.Routing.{UpstreamConfig}
use rsync_proxy.Server.{Server}
use rsync_proxy.Queue.{Queue}

abbrev is_line : Bytes → Bool
is_line [] = true
is_line (c ∷ s) = not (c == b'\n') && is_line s

-- A literal is a line if the test says so.
pub is_line_lem : (s : Bytes) → is_line s ≡ true → IsLine s
is_line_lem [] h = tt
is_line_lem (c ∷ s) h = (ground arith, is_line_lem s (ground arith))

pub append-IsLine : (a b : Bytes) → IsLine a → IsLine b → IsLine (a ++ b)
append-IsLine = All-append NoFeed

pub after_literal : (a b : Bytes) → is_line a ≡ true → IsLine b → IsLine (a ++ b)
after_literal a b h k = append-IsLine a b (is_line_lem a h) k

pub decimal-IsLine : (n : ℕ) → IsLine (decimal n)
decimal-IsLine n = decimal-All NoFeed (λ d h. ground arith) n

pub decimal_ℤ-IsLine : (a : ℤ) → IsLine (decimal_ℤ a)
decimal_ℤ-IsLine (pos n) = decimal-IsLine n
decimal_ℤ-IsLine (negsuc n) = (refl, decimal-IsLine (suc n))

escape_byte-IsLine : (c : ℕ) → IsLine (escape_byte c)
unfolding escape_byte
escape_byte-IsLine c = ground arith

escape-IsLine : (s : Bytes) → IsLine (prometheus_escape_label_value s)
escape-IsLine [] = unfold prometheus_escape_label_value in tt
escape-IsLine (c ∷ s) = rw (escape-cons c s) (
    append-IsLine (escape_byte c) (prometheus_escape_label_value s) (escape_byte-IsLine c)
      (escape-IsLine s))

-- No label, name or help text breaks a line.
abbrev pub SampleIsLine : Sample → Type 0
SampleIsLine s = IsLine s.labels × IsLine s.value

abbrev pub FamilyIsLines : Family → Type 0
FamilyIsLines f =
    ((is_line f.name && (is_line f.help && is_line f.kind)) ≡ true) × All SampleIsLine f.samples

upstream_label-IsLine : (name : Bytes) → IsLine (upstream_label name)
upstream_label-IsLine name = after_literal (codes "{upstream=\"") _ refl (
    append-IsLine (prometheus_escape_label_value name) _ (escape-IsLine name)
      (is_line_lem (codes "\"}") refl))

-- A key of labels ends in a text that is a line too.
pair-IsLine :
    (start m middle u end : Bytes)
    → is_line start ≡ true
    → is_line middle ≡ true
    → is_line end ≡ true
    → IsLine (
        start
        ++ (prometheus_escape_label_value m
            ++ (middle ++ (prometheus_escape_label_value u ++ end))))
pair-IsLine start m middle u end h k l = after_literal start _ h (
    append-IsLine (prometheus_escape_label_value m) _ (escape-IsLine m) (
      after_literal middle _ k (
        append-IsLine (prometheus_escape_label_value u) end (escape-IsLine u) (is_line_lem end l))))

prometheus_labels-IsLine : (index : ℕ) (m u : Bytes) → IsLine (prometheus_labels index m u)
unfolding prometheus_labels
prometheus_labels-IsLine index m u = after_literal (codes "index=\"") _ refl (
    append-IsLine (decimal index) _ (decimal-IsLine index) (
      pair-IsLine (codes "\",module=\"") (prometheus_label_value_or_unknown m)
        (codes "\",upstream=\"") (prometheus_label_value_or_unknown u) (codes "\"") refl refl refl))

pub queue_samples-IsLine :
    (value : Queue → Bytes) (s : Server) (us : List UpstreamConfig)
    → ((q : Queue) → IsLine (value q))
    → All SampleIsLine (queue_samples value s us)
unfolding queue_samples
queue_samples-IsLine value s [] h = tt
queue_samples-IsLine value s (u ∷ us) h = elim (Option-cases (lookup u.name s.upstream_queues)) [
  | inl none_there ↦ rw (All, none_there) (queue_samples-IsLine value s us h)
  | inr (p, there) ↦
      rw (All, there)
        ((upstream_label-IsLine u.name, h (s.queues.cell p)), queue_samples-IsLine value s us h)
]

pub upstream_samples-IsLine :
    (value : Bytes → Bytes) (us : List UpstreamConfig)
    → ((name : Bytes) → IsLine (value name))
    → All SampleIsLine (upstream_samples value us)
unfolding upstream_samples
upstream_samples-IsLine value [] h = tt
upstream_samples-IsLine value (u ∷ us) h =
    ((upstream_label-IsLine u.name, h u.name), upstream_samples-IsLine value us h)

pub key_samples-IsLine {ℓ} :
    {A : Type ℓ} (value : A → ℕ) (m : List ((Bytes × Bytes) × A))
    → All SampleIsLine (key_samples value m)
key_samples-IsLine value [] = tt
key_samples-IsLine value (((m, u), a) ∷ rest) = (
  (
    pair-IsLine (codes "{module=\"") m (codes "\",upstream=\"") u (codes "\"}") refl refl refl,
    decimal-IsLine (value a),
  ),
  key_samples-IsLine value rest,
)

pub conn_samples-IsLine :
    (value : ConnInfo → Bytes) (conns : List ConnInfo)
    → ((info : ConnInfo) → IsLine (value info))
    → All SampleIsLine (conn_samples value conns)
conn_samples-IsLine value [] h = tt
conn_samples-IsLine value (info ∷ rest) h = (
  (
    after_literal (codes "{") _ refl (
        append-IsLine (prometheus_labels info.index info.module_name info.upstream) _
          (prometheus_labels-IsLine info.index info.module_name info.upstream)
          (is_line_lem (codes "}") refl)),
    h info,
  ),
  conn_samples-IsLine value rest h,
)

pub single-IsLine : (n : ℕ) → All SampleIsLine (single n)
single-IsLine n = ((tt, decimal-IsLine n), tt)
