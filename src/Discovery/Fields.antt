-- ===== src/Discovery/Fields.antt =====
-- Lines, and the first field of each.
use rsync_proxy.Base.{
  ℕ, ◌≡◌, refl, ap, ◌∙◌, Bool, true, false, ◌||◌, some, List, [], ◌∷◌, ◌++◌, append-nil,
  append_assoc, arith, ◌==◌, Bytes, All,
}
use rsync_proxy.Discovery.{
  lines_from, ascii_space, space_width, after_spaces, until_space, first_field, word,
}

-- The bytes with which a Unicode space can start.
abbrev pub space_lead : ℕ → Bool
space_lead c = ascii_space c || (c == 0xc2 || (c == 0xe1 || (c == 0xe2 || c == 0xe3)))

abbrev pub IsPlain : ℕ → Type 0
IsPlain c = space_lead c ≡ false

abbrev pub NoFeed : ℕ → Type 0
NoFeed c = (c == b'\n') ≡ false

abbrev pub IsLine : Bytes → Type 0
IsLine line = All NoFeed line

-- The lines, each with its line feed.
abbrev pub text : List Bytes → Bytes
text [] = []
text (line ∷ lines) = line ++ b'\n' ∷ text lines

lines_from-feed :
    (l line s : Bytes) → IsLine l → lines_from line (l ++ b'\n' ∷ s) ≡ (line ++ l) ∷ lines_from [] s
unfolding lines_from
lines_from-feed [] line s h = rw (append-nil line) refl
lines_from-feed (c ∷ l) line s (h, hs) = rw h (
    lines_from-feed l (line ++ c ∷ []) s hs
    ∙ ap (λ k. k ∷ lines_from [] s) (append_assoc line (c ∷ []) l))

pub lines_from-text :
    (lines : List Bytes) (s : Bytes)
    → All IsLine lines
    → lines_from [] (text lines ++ s) ≡ lines ++ lines_from [] s
lines_from-text [] s h = refl
lines_from-text (line ∷ lines) s (h, hs) =
    ap (lines_from []) (append_assoc line (b'\n' ∷ text lines) s)
    ∙ lines_from-feed line [] (text lines ++ s) h
    ∙ ap (λ k. line ∷ k) (lines_from-text lines s hs)

space_width-plain : (c : ℕ) (s : Bytes) → IsPlain c → space_width (c ∷ s) ≡ 0
unfolding space_width
space_width-plain c [] h = ground arith
space_width-plain c (b ∷ []) h = ground arith
space_width-plain c (b ∷ d ∷ s) h = ground arith

until_space-word :
    (name tail : Bytes)
    → All IsPlain name
    → until_space tail ≡ []
    → until_space (name ++ tail) ≡ name
unfolding until_space
until_space-word [] tail h e = e
until_space-word (c ∷ name) tail (h, hs) e =
    rw (space_width-plain c (name ++ tail) h) (ap (λ k. c ∷ k) (until_space-word name tail hs e))

-- What may follow a name on its line: nothing, or what starts with a space.
abbrev pub IsComment : Bytes → Type 0
IsComment [] = Unit
IsComment (c ∷ s) = ascii_space c ≡ true

until_space-comment : (tail : Bytes) → IsComment tail → until_space tail ≡ []
unfolding until_space space_width
until_space-comment [] h = refl
until_space-comment (c ∷ s) h = rw h refl

after_spaces-word : (c : ℕ) (s : Bytes) → IsPlain c → after_spaces 0 (c ∷ s) ≡ c ∷ s
unfolding after_spaces
after_spaces-word c s h = rw (space_width-plain c s h) refl

pub first_field-name :
    (c : ℕ) (name tail : Bytes)
    → All IsPlain (c ∷ name)
    → IsComment tail
    → first_field ((c ∷ name) ++ tail) ≡ some (c ∷ name)
unfolding first_field
first_field-name c name tail (h, hs) e = ap word (
    ap until_space (after_spaces-word c (name ++ tail) h)
    ∙ until_space-word (c ∷ name) tail (h, hs) (until_space-comment tail e))
