-- ===== src/Client/Size.antt =====
-- `formatSizeColored` of cmd/cmd.go. The colour library is not modelled: each piece of the output
-- is its text with the colour that it is printed in. A size is the `int64` of a byte counter,
-- which is never negative.
use rsync_proxy.Base.{
  append_assoc, sym, Bool-cases, decimal-pad3, inl, inr, refl, ℕ, ◌+◌, ◌*◌, ◌/◌, ◌%◌, ◌<◌, ◌≡◌, ap,
  ◌∙◌, Bool, ◌||◌, List, [], ◌∷◌, ◌++◌, arith, ltb, ◌==◌, if◌then◌else◌, decimal, pad3, pad6,
  decimal-pad6, Bytes, codes,
}

pub data Ink : Type 0 where
  large_number gigabytes megabytes muted plain : Ink

pub record Segment : Type 0 where
  pub ink : Ink
  pub text : Bytes

abbrev mb_unit : ℕ
mb_unit = 1_000_000

abbrev gb_unit : ℕ
gb_unit = 1_000_000_000

abbrev tb_unit : ℕ
tb_unit = 1_000_000_000_000

abbrev one : Ink → Bytes → List Segment
one ink text = record { ink = ink; text = text } ∷ []

tb_segment : ℕ → List Segment
tb_segment tb = if ltb 0 tb then one large_number (decimal tb) else []

gb_segment : ℕ → Bool → List Segment
gb_segment gb pad_gb =
    if ltb 0 gb || pad_gb
    then (if pad_gb then one gigabytes (pad3 gb) else one gigabytes (decimal gb))
    else []

mb_segment : ℕ → Bool → List Segment
mb_segment mb pad_mb =
    if ltb 0 mb || pad_mb
    then (if pad_mb then one megabytes (pad3 mb) else one megabytes (decimal mb))
    else []

remainder_segment : ℕ → Bool → List Segment
remainder_segment remainder pad_remainder =
    if ltb 0 remainder || pad_remainder then one plain (pad6 remainder) else []

pieces : ℕ → ℕ → ℕ → ℕ → List Segment
unfolding tb_segment gb_segment mb_segment remainder_segment
pieces tb gb mb remainder =
    let pad_gb = ltb 0 tb in
    let pad_mb = pad_gb || ltb 0 gb in
    let pad_remainder = pad_mb || ltb 0 mb in
    tb_segment tb
    ++ (gb_segment gb pad_gb ++ (mb_segment mb pad_mb ++ remainder_segment remainder pad_remainder))

unfoldable pub format_size_colored : ℕ → List Segment
unfolding pieces
format_size_colored size =
    if size == 0
    then one muted (codes "0")
    else pieces (size / tb_unit) (size / gb_unit % 1000) (size / mb_unit % 1000) (size % mb_unit)

-- The output with its colours left out.
abbrev pub text_of : List Segment → Bytes
text_of [] = []
text_of (s ∷ rest) = s.text ++ text_of rest

split_mb : (n : ℕ) → n ≡ n / mb_unit * 1000000 + n % mb_unit
split_mb n = omega arith

split_gb : (n : ℕ) → n / mb_unit ≡ n / gb_unit * 1000 + n / mb_unit % 1000
split_gb n = omega arith

split_tb : (n : ℕ) → n / gb_unit ≡ n / tb_unit * 1000 + n / gb_unit % 1000
split_tb n = omega arith

above_mb : (n : ℕ) → 0 < n / mb_unit → decimal n ≡ decimal (n / mb_unit) ++ pad6 (n % mb_unit)
above_mb n h = ap decimal (split_mb n) ∙ decimal-pad6 (n / mb_unit) (n % mb_unit) h (omega arith)

above_gb :
    (n : ℕ)
    → 0 < n / gb_unit
    → decimal (n / mb_unit) ≡ decimal (n / gb_unit) ++ pad3 (n / mb_unit % 1000)
above_gb n h =
    ap decimal (split_gb n) ∙ decimal-pad3 (n / gb_unit) (n / mb_unit % 1000) h (omega arith)

above_tb :
    (n : ℕ)
    → 0 < n / tb_unit
    → decimal (n / gb_unit) ≡ decimal (n / tb_unit) ++ pad3 (n / gb_unit % 1000)
above_tb n h =
    ap decimal (split_tb n) ∙ decimal-pad3 (n / tb_unit) (n / gb_unit % 1000) h (omega arith)

-- What a reader of the table should find, but for the sizes below a megabyte.
abbrev pub shown : ℕ → Bytes
shown n = if n == 0 then codes "0" else if ltb n 1_000_000 then pad6 n else decimal n

module _ (tb gb mb r : ℕ) where
  pieces_tb : 0 < tb → text_of (pieces tb gb mb r) ≡ decimal tb ++ (pad3 gb ++ (pad3 mb ++ pad6 r))
  unfolding pieces
  pieces_tb h = ground arith

  pieces_gb : tb ≡ 0 → 0 < gb → text_of (pieces tb gb mb r) ≡ decimal gb ++ (pad3 mb ++ pad6 r)
  unfolding pieces
  pieces_gb z h = ground arith

  pieces_mb : tb ≡ 0 → gb ≡ 0 → 0 < mb → text_of (pieces tb gb mb r) ≡ decimal mb ++ pad6 r
  unfolding pieces
  pieces_mb z y h = ground arith

  pieces_remainder : tb ≡ 0 → gb ≡ 0 → mb ≡ 0 → 0 < r → text_of (pieces tb gb mb r) ≡ pad6 r
  unfolding pieces
  pieces_remainder z y x h = ground arith

large_size :
    (n : ℕ)
    → 0 < n / mb_unit
    → text_of (pieces (n / tb_unit) (n / gb_unit % 1000) (n / mb_unit % 1000) (n % mb_unit))
      ≡ decimal n
large_size n h = elim (Bool-cases (ltb 0 (n / tb_unit))) [
  | inl t ↦
      pieces_tb (n / tb_unit) (n / gb_unit % 1000) (n / mb_unit % 1000) (n % mb_unit) (ground arith)
      ∙ sym (
          above_mb n h
          ∙ ap (λ l. l ++ pad6 (n % mb_unit))
              (above_gb n (ground arith)
                ∙ ap (λ l. l ++ pad3 (n / mb_unit % 1000)) (above_tb n (ground arith))
                ∙ append_assoc (decimal (n / tb_unit)) _ _)
          ∙ append_assoc (decimal (n / tb_unit)) _ _)
  | inr t ↦ elim (Bool-cases (ltb 0 (n / gb_unit))) [
    | inl g ↦
        pieces_gb (n / tb_unit) (n / gb_unit % 1000) (n / mb_unit % 1000) (n % mb_unit)
          (ground arith) (ground arith)
        ∙ sym (
            above_mb n h
            ∙ ap (λ l. l ++ pad6 (n % mb_unit))
                (above_gb n (ground arith)
                  ∙ ap (λ k. decimal k ++ pad3 (n / mb_unit % 1000)) (ground arith))
            ∙ append_assoc (decimal (n / gb_unit % 1000)) _ _)
    | inr g ↦
        pieces_mb (n / tb_unit) (n / gb_unit % 1000) (n / mb_unit % 1000) (n % mb_unit)
          (ground arith) (ground arith) (ground arith)
        ∙ sym (above_mb n h ∙ ap (λ k. decimal k ++ pad6 (n % mb_unit)) (ground arith))
  ]
]

-- From a megabyte on the pieces are the digits of the size, none lost at a border. A smaller size
-- that is not 0 is padded to six digits.
pub text_of-format_size_colored : (n : ℕ) → text_of (format_size_colored n) ≡ shown n
unfolding format_size_colored
text_of-format_size_colored n = elim (Bool-cases (n == 0)) [
  | inl z ↦ rw z refl
  | inr nz ↦ elim (Bool-cases (ltb n 1_000_000)) [
    | inl small ↦
        rw (nz, small)
          (pieces_remainder (n / tb_unit) (n / gb_unit % 1000) (n / mb_unit % 1000) (n % mb_unit)
              (ground arith) (ground arith) (ground arith) (ground arith)
            ∙ ap pad6 (ground arith))
    | inr large ↦ rw (nz, large) (large_size n (ground arith))
  ]
]
