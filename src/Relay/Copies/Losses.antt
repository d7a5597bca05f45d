-- ===== src/Relay/Copies/Losses.antt =====
-- How a copy ended, and what is logged of it.
use rsync_proxy.Base.{
  ◌≡◌, refl, subst, ◌⊎◌, inl, inr, Bool, true, false, List, [], ◌∷◌, ◌++◌, Memᴰ, if◌then◌else◌,
  Bytes,
}
use rsync_proxy.Relay.Copies.{
  Call, reads, writes, returns, Direction, sent, received, Phase, copying, returned, closed,
  Copying, copier, call, close_channel, select, finish, Step, calls, closes, selected, sent_closed,
  received_closed, Reach, start, next,
}
use rsync_proxy.Routing.{Target}

-- By the phase of the goroutine of `d`.
abbrev pub HasEnded : Direction → List Direction → List Call → Phase → Type 0
HasEnded d errors made copying = Unit
HasEnded d errors made (returned e) = (h : List Call) × (made ≡ returns e ∷ h)
HasEnded d errors made closed = (h : List Call) × ((made ≡ returns false ∷ h) ⊎ Memᴰ d errors)

abbrev Logs : Direction → Copying → Type 0
Logs d s = HasEnded d s.copy_errors (copier d s).calls (copier d s).phase

Logs-call : (e d : Direction) (c : Call) (s : Copying) → Logs e s → Logs e (call d c s)
unfolding call
Logs-call sent sent (reads b) s h = tt
Logs-call sent sent (writes b) s h = tt
Logs-call sent sent (returns x) s h = (s.from_upstream.calls, refl)
Logs-call received received (reads b) s h = tt
Logs-call received received (writes b) s h = tt
Logs-call received received (returns x) s h = (s.from_client.calls, refl)
Logs-call sent received c s h = h
Logs-call received sent c s h = h

Mem-later : (d e : Direction) (ds : List Direction) → Memᴰ d ds → Memᴰ d (ds ++ e ∷ [])
Mem-later d e [] m = elim m [ ]
Mem-later d e (x ∷ ds) (Memᴰ.head p) = Memᴰ.head p
Mem-later d e (x ∷ ds) (Memᴰ.tail m) = Memᴰ.tail (Mem-later d e ds m)

Mem-last : (d : Direction) (ds : List Direction) → Memᴰ d (ds ++ d ∷ [])
Mem-last d [] = Memᴰ.head refl
Mem-last d (x ∷ ds) = Memᴰ.tail (Mem-last d ds)

-- The other direction's error leaves this one's account as it is.
HasEnded-more :
    (d e : Direction) (errors : List Direction) (made : List Call) (p : Phase)
    → HasEnded d errors made p
    → HasEnded d (errors ++ e ∷ []) made p
HasEnded-more d e errors made copying h = tt
HasEnded-more d e errors made (returned x) h = h
HasEnded-more d e errors made closed (h, inl p) = (h, inl p)
HasEnded-more d e errors made closed (h, inr m) = (h, inr (Mem-later d e errors m))

closes_own :
    (d : Direction) (failed : Bool) (errors : List Direction) (made : List Call)
    → HasEnded d errors made (returned failed)
    → HasEnded d (if failed then errors ++ d ∷ [] else errors) made closed
closes_own d true errors made (h, p) = (h, inr (Mem-last d errors))
closes_own d false errors made (h, p) = (h, inl p)

closes_other :
    (d e : Direction) (failed : Bool) (errors : List Direction) (made : List Call) (p : Phase)
    → HasEnded d errors made p
    → HasEnded d (if failed then errors ++ e ∷ [] else errors) made p
closes_other d e true errors made p h = HasEnded-more d e errors made p h
closes_other d e false errors made p h = h

Logs-close :
    (e d : Direction) (failed : Bool) (s : Copying)
    → (copier d s).phase ≡ returned failed
    → Logs e s
    → Logs e (close_channel d failed s)
unfolding close_channel
Logs-close sent sent failed s p h =
    closes_own sent failed s.copy_errors s.from_upstream.calls
      (subst (HasEnded sent s.copy_errors s.from_upstream.calls) p h)
Logs-close received received failed s p h =
    closes_own received failed s.copy_errors s.from_client.calls
      (subst (HasEnded received s.copy_errors s.from_client.calls) p h)
Logs-close sent received failed s p h =
    closes_other sent received failed s.copy_errors s.from_upstream.calls s.from_upstream.phase h
Logs-close received sent failed s p h =
    closes_other received sent failed s.copy_errors s.from_client.calls s.from_client.phase h

module _ (allows : List Call → Bool) (target : Target) (name : Bytes) where
  Step-Logs : (e : Direction) {s t : Copying} → Step allows target name s t → Logs e s → Logs e t
  unfolding select finish
  Step-Logs e {s} (calls d c p can ok) h = Logs-call e d c s h
  Step-Logs e {s} (closes d failed p) h = Logs-close e d failed s p h
  Step-Logs sent (selected d p q) h = h
  Step-Logs received (selected d p q) h = h
  Step-Logs sent (sent_closed p q) h = h
  Step-Logs received (sent_closed p q) h = h
  Step-Logs sent (received_closed p q) h = h
  Step-Logs received (received_closed p q) h = h

  pub Reach-Logs : (e : Direction) {s : Copying} → Reach allows target name s → Logs e s
  Reach-Logs sent (start info a b) = tt
  Reach-Logs received (start info a b) = tt
  Reach-Logs e (next r st) = Step-Logs e st (Reach-Logs e r)
