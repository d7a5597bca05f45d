-- ===== src/Metrics/Labels.antt =====
-- The label values of pkg/server/metrics.go.
use rsync_proxy.Base.{
  ℕ, ◌≡◌, refl, Bool, true, false, Option, none, some, [], ◌∷◌, ◌++◌, append_assoc, arith, ◌==◌,
  if◌then◌else◌, decimal, Bytes, codes,
}

-- `strings.ReplaceAll(s, old, new)` where `old` is one byte.
replace_all : ℕ → Bytes → Bytes → Bytes
replace_all old new [] = []
replace_all old new (c ∷ s) =
    let rest = replace_all old new s in if c == old then new ++ rest else c ∷ rest

-- `prometheusEscapeLabelValue`: three passes, the backslash first.
unfoldable pub prometheus_escape_label_value : Bytes → Bytes
unfolding replace_all
prometheus_escape_label_value s =
    replace_all b'"' (codes "\\\"")
      (replace_all b'\n' (codes "\\n") (replace_all b'\\' (codes "\\\\") s))

-- `prometheusLabelValueOrUnknown`
unfoldable pub prometheus_label_value_or_unknown : Bytes → Bytes
prometheus_label_value_or_unknown [] = codes "unknown"
prometheus_label_value_or_unknown (c ∷ s) = c ∷ s

-- `prometheusLabels`
unfoldable pub prometheus_labels : ℕ → Bytes → Bytes → Bytes
prometheus_labels index module_name upstream =
    codes "index=\""
    ++ (decimal index
        ++ (codes "\",module=\""
            ++ (prometheus_escape_label_value (prometheus_label_value_or_unknown module_name)
                ++ (codes "\",upstream=\""
                    ++ (prometheus_escape_label_value (prometheus_label_value_or_unknown upstream)
                        ++ codes "\"")))))

-- What the text format of Prometheus says of a quoted value: `\\`, `\"` and `\n` stand for a
-- backslash, a quote and a line feed, a bare quote ends the value, a bare line feed is an error.
abbrev unescape : ℕ → Option ℕ
unescape c =
    if c == b'\\'
    then some b'\\'
    else if c == b'"'
    then some b'"'
    else if c == b'n'
    then some b'\n'
    else none

cons_value : ℕ → Option (Bytes × Bytes) → Option (Bytes × Bytes)
cons_value c none = none
cons_value c (some (v, rest)) = some (c ∷ v, rest)

-- The flag tells that a backslash was read. The result is the value and what follows the quote.
pub read_value : Bool → Bytes → Option (Bytes × Bytes)
unfolding cons_value
read_value escaped [] = none
read_value true (c ∷ s) =
    let rest = read_value false s in elim (unescape c) [ none ↦ none | some d ↦ cons_value d rest ]
read_value false (c ∷ s) =
    let after = read_value true s in
    let rest = read_value false s in
    if c == b'\\'
    then after
    else if c == b'"'
    then some ([], s)
    else if c == b'\n'
    then none
    else cons_value c rest

unfoldable pub escape_byte : ℕ → Bytes
escape_byte c =
    if c == b'\\'
    then codes "\\\\"
    else if c == b'\n'
    then codes "\\n"
    else if c == b'"'
    then codes "\\\""
    else c ∷ []

-- The three passes are one.
pub escape-cons :
    (c : ℕ) (s : Bytes)
    → prometheus_escape_label_value (c ∷ s) ≡ escape_byte c ++ prometheus_escape_label_value s
unfolding prometheus_escape_label_value escape_byte
escape-cons c s = ground arith

read_value-escape_byte :
    (c : ℕ) (t : Bytes) → read_value false (escape_byte c ++ t) ≡ cons_value c (read_value false t)
unfolding read_value escape_byte
read_value-escape_byte c t = ground arith

-- A reader of the text format gets back the value that was escaped, whatever bytes it holds, and
-- stops at the quote behind it.
pub read_value-escape :
    (s rest : Bytes)
    → read_value false (prometheus_escape_label_value s ++ b'"' ∷ rest) ≡ some (s, rest)
read_value-escape [] rest = unfold read_value prometheus_escape_label_value in refl
read_value-escape (c ∷ s) rest =
    rw
      (
        escape-cons c s,
        append_assoc (escape_byte c),
        read_value-escape_byte,
        read_value-escape s rest,
      )
      (unfold cons_value in refl)
