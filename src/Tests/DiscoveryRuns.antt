-- ===== src/Tests/DiscoveryRuns.antt =====
-- Answers of daemons, and what is discovered from them.
use rsync_proxy.Base.{
  ℕ, ◌≡◌, refl, Bool, true, false, not, ◌&&◌, List, [], ◌∷◌, ◌++◌, arith, ◌==◌, Bytes, codes,
  sort_strings, All,
}
use rsync_proxy.Discovery.{Peer, found, discover_modules}
use rsync_proxy.Discovery.Fields.{IsPlain, IsLine, space_lead, text}
use rsync_proxy.Discovery.Listing.{
  listing, names, IsEntry, discover_modules-listing, discover_modules_takes_motd,
}
use rsync_proxy.Wire.{rsyncd_exit}

abbrev version : Bytes
version = codes "@RSYNCD: 31.0"

abbrev message : List Bytes
message = codes "Welcome to the mirror" ∷ []

abbrev entries : List (Bytes × Bytes)
entries = (codes "pypi", codes "   \tPython packages") ∷ (codes "arch", []) ∷ []

abbrev daemon : Bytes → Peer
daemon says = record {
  dials = true;
  use_proxy_protocol = false;
  header_sent = false;
  version_sent = true;
  request_sent = true;
  says = says;
}

abbrev answer : Bytes
answer = text (version ∷ (message ++ [] ∷ listing entries)) ++ (rsyncd_exit ++ [])

abbrev motd_answer : Bytes
motd_answer =
    text (version ∷ (codes "Served" ++ codes " by rsync-proxy") ∷ listing entries)
    ++ (rsyncd_exit ++ [])

abbrev none_is : (ℕ → Bool) → Bytes → Bool
none_is f [] = true
none_is f (c ∷ s) = not (f c) && none_is f s

none_is-All : (f : ℕ → Bool) (s : Bytes) → none_is f s ≡ true → All (λ c. f c ≡ false) s
none_is-All f [] h = tt
none_is-All f (c ∷ s) h = (ground arith, none_is-All f s (ground arith))

abbrev is_feed : ℕ → Bool
is_feed c = c == b'\n'

plain : (s : Bytes) → none_is space_lead s ≡ true → All IsPlain s
plain s h = none_is-All space_lead s h

version-IsLine : IsLine version
version-IsLine = none_is-All is_feed version refl

entries-IsEntry : All IsEntry entries
entries-IsEntry = (
  (
    (λ e. cc),
    plain (codes "pypi") refl,
    refl,
    none_is-All is_feed (codes "pypi   \tPython packages") refl,
    refl,
  ),
  (((λ e. cc), plain (codes "arch") refl, tt, none_is-All is_feed (codes "arch") refl, refl), tt),
)

motd-IsEntry : IsEntry (codes "Served", codes " by rsync-proxy")
motd-IsEntry = (
  (λ e. cc),
  plain (codes "Served") refl,
  refl,
  none_is-All is_feed (codes "Served by rsync-proxy") refl,
  refl,
)

discover_modules-listing_example :
    discover_modules (daemon answer) ≡ found (sort_strings (names entries))
discover_modules-listing_example =
    discover_modules-listing (daemon answer) version message entries [] (refl, refl, refl, refl)
      refl version-IsLine refl
      ((none_is-All is_feed (codes "Welcome to the mirror") refl, refl), tt) entries-IsEntry

discover_modules_takes_motd_example :
    discover_modules (daemon motd_answer) ≡ found (sort_strings (codes "Served" ∷ names entries))
discover_modules_takes_motd_example =
    discover_modules_takes_motd (daemon motd_answer) version (codes "Served")
      (codes " by rsync-proxy") entries [] (refl, refl, refl, refl) refl version-IsLine refl
      motd-IsEntry entries-IsEntry
