-- ===== src/Discovery.antt =====
-- pkg/server/server.go: `discoverModulesFromUpstream`, an rsync session that reads the names of the
-- modules of an upstream. What the upstream says, until the connection fails, is given as bytes.
pub mod Fields
pub mod Listing
pub mod Upstreams
use rsync_proxy.Wire.{rsyncd_version_prefix}
use rsync_proxy.Base.{
  ℕ, zero, suc, ◌+◌, ◌-◌, ◌/◌, Bool, not, ◌&&◌, ◌||◌, Option, none, some, List, [], ◌∷◌, ◌++◌, leb,
  ◌==◌, if◌then◌else◌, Bytes, has_prefix, sort_strings, length, drop,
}

-- The outcome of the dial and of each write, and all that can be read.
pub record Peer : Type 0 where
  pub dials : Bool
  pub use_proxy_protocol : Bool
  pub header_sent : Bool
  pub version_sent : Bool
  pub request_sent : Bool
  pub says : Bytes

pub data DiscoverError : Type 0 where
  dial send_header send_version read_version unexpected_version request_list read_module_list :
      DiscoverError

pub data Found : Type 0 where
  found : List Bytes → Found
  failed : DiscoverError → Found

-- What successive calls of `reader.ReadString` return before one fails, without the line feeds.
unfoldable pub lines_from : Bytes → Bytes → List Bytes
lines_from line [] = []
lines_from line (c ∷ s) =
    let next = lines_from [] s in
    let more = lines_from (line ++ c ∷ []) s in if c == b'\n' then line ∷ next else more

-- `unicode.IsSpace` below 128
abbrev pub ascii_space : ℕ → Bool
ascii_space c = (leb 9 c && leb c 13) || c == 32

-- The length of the Unicode space that a text starts with, in UTF-8; 0 if it starts with none.
unfoldable pub space_width : Bytes → ℕ
space_width [] = 0
space_width (a ∷ s) = if ascii_space a then 1 else (elim s [
  | [] ↦ 0
  | b ∷ t ↦ if a == 0xc2 && (b == 0x85 || b == 0xa0) then 2 else (elim t [
    | [] ↦ 0
    | c ∷ u ↦
        if (a == 0xe1 && (b == 0x9a && c == 0x80))
          || ((a == 0xe2
                && (b == 0x80
                    && ((leb 0x80 c && leb c 0x8a) || (c == 0xa8 || (c == 0xa9 || c == 0xaf)))))
              || ((a == 0xe2 && (b == 0x81 && c == 0x9f))
                  || (a == 0xe3 && (b == 0x80 && c == 0x80))))
        then 3
        else 0
  ])
])

-- Leaves out `n` bytes, and then the spaces.
unfoldable pub after_spaces : ℕ → Bytes → Bytes
unfolding space_width
after_spaces n [] = []
after_spaces (suc n) (c ∷ s) = after_spaces n s
after_spaces zero (c ∷ s) =
    let width = space_width (c ∷ s) in
    let later = after_spaces (width - 1) s in if width == 0 then c ∷ s else later

unfoldable pub until_space : Bytes → Bytes
unfolding space_width
until_space [] = []
until_space (c ∷ s) = let rest = until_space s in if space_width (c ∷ s) == 0 then c ∷ rest else []

abbrev word : Bytes → Option Bytes
word [] = none
word (c ∷ s) = some (c ∷ s)

-- `strings.Fields(line)[0]`, where there is one.
unfoldable pub first_field : Bytes → Option Bytes
unfolding until_space after_spaces
first_field line = word (until_space (after_spaces 0 line))

-- The loop that reads the list; an empty line drops what came before it.
unfoldable pub read_modules : List Bytes → List Bytes → Found
unfolding first_field
read_modules modules [] = failed read_module_list
read_modules modules (line ∷ lines) =
    let again = read_modules [] lines in
    if has_prefix line rsyncd_version_prefix
    then found (sort_strings modules)
    else (elim (first_field line) [
      | none ↦ again
      | some name ↦ read_modules (modules ++ name ∷ []) lines
    ])

-- `discoverModulesFromUpstream`
unfoldable pub discover_modules : Peer → Found
unfolding lines_from read_modules
discover_modules p =
    if not p.dials
    then failed dial
    else if p.use_proxy_protocol && not p.header_sent
    then failed send_header
    else if not p.version_sent
    then failed send_version
    else (elim (lines_from [] p.says) [
      | [] ↦ failed read_version
      | version ∷ lines ↦
          if not (has_prefix version rsyncd_version_prefix)
          then failed unexpected_version
          else if not p.request_sent
          then failed request_list
          else read_modules [] lines
    ])
