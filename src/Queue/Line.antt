-- ===== src/Queue/Line.antt =====
-- What a queue is to its clients: some are inside, some wait, in the order in which they came. There
-- are no channels and no loops here.
pub mod Filling
pub mod Refinement
pub mod Termination
use rsync_proxy.Base.{
  ℕ, zero, suc, ◌+◌, ◌-◌, Bool, true, false, not, ◌||◌, none, some, List, [], ◌∷◌, ◌++◌, ltb, ◌==◌,
  if◌then◌else◌, length, drop, take, ℤ, pos, negsuc,
}
use rsync_proxy.Queue.{without}

pub record Line : Type 0 where
  pub max : ℤ
  pub max_queued : ℤ
  pub inside : List ℕ
  pub waiting : List ℕ
  pub next : ℕ
  pub left : ℕ → Bool

-- How many of `waiting` clients may enter while `inside` are inside; a limit of 0 is none, and one
-- below 0 lets nobody in.
unfoldable pub slots : ℤ → ℕ → ℕ → ℕ
slots (pos zero) inside waiting = waiting
slots (pos (suc m)) inside waiting = suc m - inside
slots (negsuc m) inside waiting = 0

-- Nobody more may wait. A limit that is not positive is none.
unfoldable pub crowded : ℤ → ℕ → Bool
crowded (pos zero) waiting = false
crowded (pos (suc m)) waiting = ltb m waiting
crowded (negsuc m) waiting = false

unfoldable pub elem : ℕ → List ℕ → Bool
elem ch [] = false
elem ch (x ∷ xs) = ch == x || elem ch xs

-- A client comes; its number is the next one.
unfoldable pub enter : Line → Line
unfolding slots crowded
enter l =
    if ltb 0 (slots l.max (length l.inside) 1)
    then record l { inside = l.inside ++ l.next ∷ []; next = l.next + 1 }
    else if crowded l.max_queued (length l.waiting)
    then record l { next = l.next + 1 }
    else record l { waiting = l.waiting ++ l.next ∷ []; next = l.next + 1 }

-- As many as may enter do so, all at once and in their order.
abbrev fill : Line → Line
fill l =
    let n = slots l.max (length l.inside) (length l.waiting) in
    record l { inside = l.inside ++ take n l.waiting; waiting = drop n l.waiting }

-- A client leaves, from its place in the line or from inside, for the first time or again.
unfoldable pub leave : ℕ → Line → Line
unfolding elem without slots
leave ch l =
    let gone = λ (j : ℕ). if j == ch then true else l.left j in
    if l.left ch
    then l
    else if elem ch l.waiting
    then record l { waiting = without ch l.waiting; left = gone }
    else fill (record l { inside = without ch l.inside; left = gone })

pub data Action : Type 0 where
  comes : Action
  leaves : ℕ → Action
  looks : Action
  limits : ℤ → ℤ → Action

unfoldable pub act : Action → Line → Line
unfolding enter leave
act comes l = enter l
act (leaves ch) l = leave ch l
act looks l = l
act (limits max max_queued) l = record l { max = max; max_queued = max_queued }
