-- ===== src/Discovery/Listing.antt =====
-- What is discovered from the answer of a daemon.
use rsync_proxy.Base.{
  ◌≡◌, refl, ap, ◌∙◌, ◌≢◌, inl, inr, true, false, not, ◌&&◌, List, [], ◌∷◌, ◌++◌, append-nil,
  append_assoc, arith, Option-cases, Bytes, codes, has_prefix, sort_strings, All, All-append,
}
use rsync_proxy.Wire.{rsyncd_version_prefix, rsyncd_exit}
use rsync_proxy.Discovery.{Peer, found, lines_from, first_field, read_modules, discover_modules}
use rsync_proxy.Discovery.Fields.{
  IsPlain, IsLine, IsComment, text, lines_from-text, first_field-name,
}

abbrev NotMarked : Bytes → Type 0
NotMarked line = has_prefix line rsyncd_version_prefix ≡ false

-- A line of the message of the day.
abbrev IsBanner : Bytes → Type 0
IsBanner line = IsLine line × NotMarked line

-- A name of a module and what follows it on its line.
abbrev pub IsEntry : Bytes × Bytes → Type 0
IsEntry (name, tail) =
    (name ≢ [])
    × All IsPlain name
    × IsComment tail
    × IsLine (name ++ tail)
    × NotMarked (name ++ tail)

abbrev pub names : List (Bytes × Bytes) → List Bytes
names [] = []
names ((name, tail) ∷ es) = name ∷ names es

abbrev pub listing : List (Bytes × Bytes) → List Bytes
listing [] = []
listing ((name, tail) ∷ es) = (name ++ tail) ∷ listing es

-- Whatever the lines before an empty one are taken for, it is dropped.
read_modules-banner :
    (modules : List Bytes) (banner rest : List Bytes)
    → All IsBanner banner
    → read_modules modules (banner ++ [] ∷ rest) ≡ read_modules [] rest
unfolding read_modules
read_modules-banner modules [] rest h = refl
read_modules-banner modules (line ∷ banner) rest ((_, h), hs) =
    rw h (elim (Option-cases (first_field line)) [
      | inl blank ↦ rw blank (read_modules-banner [] banner rest hs)
      | inr (name, is) ↦ rw is (read_modules-banner (modules ++ name ∷ []) banner rest hs)
    ])

read_modules-listing :
    (modules : List Bytes) (es : List (Bytes × Bytes)) (last : Bytes) (rest : List Bytes)
    → All IsEntry es
    → has_prefix last rsyncd_version_prefix ≡ true
    → read_modules modules (listing es ++ last ∷ rest) ≡ found (sort_strings (modules ++ names es))
unfolding read_modules
read_modules-listing modules [] last rest h e = rw (e, append-nil modules) refl
read_modules-listing modules (([], tail) ∷ es) last rest ((ne, plain, comment, line, unmarked), hs)
      e =
    absurd (ne refl)
read_modules-listing modules ((c ∷ name, tail) ∷ es) last rest
      ((ne, plain, comment, line, unmarked), hs) e =
    rw (unmarked, first_field-name c name tail plain comment)
      (read_modules-listing (modules ++ (c ∷ name) ∷ []) es last rest hs e
        ∙ ap (λ l. found (sort_strings l)) (append_assoc modules ((c ∷ name) ∷ []) (names es)))

-- All connections and writes succeed.
abbrev Reached : Peer → Type 0
Reached p =
    (p.dials ≡ true)
    × ((p.use_proxy_protocol && not p.header_sent) ≡ false)
    × (p.version_sent ≡ true)
    × (p.request_sent ≡ true)

discover_modules-reads :
    (p : Peer) (version : Bytes) (lines : List Bytes)
    → Reached p
    → lines_from [] p.says ≡ version ∷ lines
    → has_prefix version rsyncd_version_prefix ≡ true
    → discover_modules p ≡ read_modules [] lines
unfolding discover_modules
discover_modules-reads p version lines (a, b, c, d) e f = ground arith

banner-IsLine : (banner : List Bytes) → All IsBanner banner → All IsLine banner
banner-IsLine [] h = tt
banner-IsLine (line ∷ banner) ((h, _), hs) = (h, banner-IsLine banner hs)

listing-IsLine : (es : List (Bytes × Bytes)) → All IsEntry es → All IsLine (listing es)
listing-IsLine [] h = tt
listing-IsLine ((name, tail) ∷ es) ((ne, plain, comment, line, unmarked), hs) =
    (line, listing-IsLine es hs)

exit_line :
    (rest : Bytes)
    → lines_from [] (rsyncd_exit ++ rest) ≡ codes "@RSYNCD: EXIT" ∷ lines_from [] rest
unfolding lines_from
exit_line rest = refl

-- An upstream that can be reached answers as a daemon does: its version, the lines of a message
-- and an empty line, and for each module a line that starts with its name, up to the line that
-- ends the list. Then what is discovered are the names, sorted: none is lost, and no word of the
-- message is taken for one.
pub discover_modules-listing :
    (p : Peer) (version : Bytes) (banner : List Bytes) (es : List (Bytes × Bytes)) (rest : Bytes)
    → Reached p
    → p.says ≡ text (version ∷ (banner ++ [] ∷ listing es)) ++ (rsyncd_exit ++ rest)
    → IsLine version
    → has_prefix version rsyncd_version_prefix ≡ true
    → All IsBanner banner
    → All IsEntry es
    → discover_modules p ≡ found (sort_strings (names es))
discover_modules-listing p version banner es rest r says line marked hb he =
    let lines = version ∷ (banner ++ [] ∷ listing es) in
    let shut = codes "@RSYNCD: EXIT" ∷ lines_from [] rest in
    let all : All IsLine lines = (
      line,
      All-append IsLine banner ([] ∷ listing es) (banner-IsLine banner hb)
          (tt, listing-IsLine es he),
    ) in
    discover_modules-reads p version ((banner ++ [] ∷ listing es) ++ shut) r
      (ap (lines_from []) says
        ∙ lines_from-text lines (rsyncd_exit ++ rest) all
        ∙ ap (λ l. lines ++ l) (exit_line rest))
      marked
    ∙ ap (read_modules []) (append_assoc banner ([] ∷ listing es) shut)
    ∙ read_modules-banner [] banner (listing es ++ shut) hb
    ∙ read_modules-listing [] es (codes "@RSYNCD: EXIT") (lines_from [] rest) he refl

-- A message of the day of one line with no empty line after it, as the proxy itself sends one, is
-- taken for the entry of a module: its first word is discovered as a name.
pub discover_modules_takes_motd :
    (p : Peer) (version word tail : Bytes) (es : List (Bytes × Bytes)) (rest : Bytes)
    → Reached p
    → p.says ≡ text (version ∷ (word ++ tail) ∷ listing es) ++ (rsyncd_exit ++ rest)
    → IsLine version
    → has_prefix version rsyncd_version_prefix ≡ true
    → IsEntry (word, tail)
    → All IsEntry es
    → discover_modules p ≡ found (sort_strings (word ∷ names es))
discover_modules_takes_motd p version word tail es rest r says line marked hm he =
    let lines = version ∷ listing ((word, tail) ∷ es) in
    let shut = codes "@RSYNCD: EXIT" ∷ lines_from [] rest in
    let all : All IsLine lines = (line, listing-IsLine ((word, tail) ∷ es) (hm, he)) in
    discover_modules-reads p version (listing ((word, tail) ∷ es) ++ shut) r
      (ap (lines_from []) says
        ∙ lines_from-text lines (rsyncd_exit ++ rest) all
        ∙ ap (λ l. lines ++ l) (exit_line rest))
      marked
    ∙ read_modules-listing [] ((word, tail) ∷ es) (codes "@RSYNCD: EXIT") (lines_from [] rest)
        (hm, he) refl
