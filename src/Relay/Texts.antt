-- ===== src/Relay/Texts.antt =====
-- pkg/server/server.go: the texts that `relay` cuts and joins.
use rsync_proxy.Base.{List, [], ◌∷◌, ◌++◌, ◌==◌, if◌then◌else◌, Bytes}
use rsync_proxy.Routing.{Target}

-- `buf[:n-1]`
unfoldable pub drop_last : Bytes → Bytes
drop_last [] = []
drop_last (c ∷ []) = []
drop_last (c ∷ d ∷ s) = c ∷ drop_last (d ∷ s)

-- `data[idx+1:]` for the index of the first line feed; all of it where there is none.
unfoldable pub after_line_feed : Bytes → Bytes → Bytes
after_line_feed whole [] = whole
after_line_feed whole (c ∷ s) = if c == b'\n' then s else after_line_feed whole s

unfoldable pub names_of : List (Bytes × List Target) → List Bytes
names_of [] = []
names_of ((k, v) ∷ m) = k ∷ names_of m

unfoldable pub lines_of : List Bytes → Bytes
lines_of [] = []
lines_of (name ∷ names) = name ++ b'\n' ∷ lines_of names
