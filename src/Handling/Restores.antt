-- ===== src/Handling/Restores.antt =====
-- A connection that has ended leaves no trace but in the counts.
use rsync_proxy.Base.{
  ℕ, ◌≡◌, refl, ap, ◌∙◌, ◌⊎◌, inl, inr, false, none, List, [], ◌∷◌, ◌++◌, arith, ◌==◌,
  if◌then◌else◌, Bool-cases, Option-cases, All, ℤ, ◌+ℤ◌, eq_of_parts, bytes_eq, pair_eq, nat_eq,
  lookup, insert, lookup-insert, pos, negsuc,
}
use rsync_proxy.Counters.{
  ConnInfo, Counters, add_u64, record_effect, record_effects, remove, change_info,
}
use rsync_proxy.Relay.{Setting, relay, handshake}
use rsync_proxy.Relay.Effects.{
  Effect, is_entry, conn_stored, conn_deleted, close_client, set_module, set_upstream,
}
use rsync_proxy.Relay.Script.{
  index_panic, Session, Outcome, done, failed, blocked, ◌>>◌, ◌>>=◌, tell, tell_all, finally,
  deferred,
}
use rsync_proxy.Relay.Triples.{Does, Any, Does-fail}
use rsync_proxy.Relay.Parts.{Does-serve_target}
use rsync_proxy.Relay.Outer.{Does-Judgement, handshake_J}
use rsync_proxy.Relay.Traces.{AnyError}
use rsync_proxy.Handling.{Conn, new_info, next_index, open_conn, close_conn, run_relay, handle_conn}

abbrev NoEntry : Effect → Type 0
NoEntry e = is_entry e ≡ false

Does-handshake : (w : Setting) → Does NoEntry AnyError Any (handshake w)
Does-handshake w =
    handshake_J NoEntry (λ _ _ _ h. h) (Does NoEntry AnyError Any)
      (Does-Judgement NoEntry NoEntry AnyError (λ _ h. h) (λ _ _. tt)) w
      (λ name version ts target _ _.
        Does-serve_target NoEntry AnyError (λ _ _. tt) (λ _ _ h. h) w target name version
          (λ _. (refl, refl)) (λ _. tt))
      (λ _ _ _ _. Does-fail NoEntry AnyError Any index_panic tt)

-- The entry is made first and taken out after all else but the last close.
abbrev Shaped : ℕ → Outcome (Unit {0}) × Session → Type 0
Shaped i r =
    (r.0 ≡ blocked)
    ⊎ ((mid : List Effect) × (r.1.effects
          ≡ conn_stored i ∷ (mid ++ conn_deleted i ∷ close_client ∷ []))
        × All NoEntry mid)

deferred-Shaped :
    (i : ℕ) (r : Outcome (Unit {0}) × Session) (mid : List Effect)
    → r.1.effects ≡ conn_stored i ∷ mid
    → All NoEntry mid
    → Shaped i (deferred (conn_deleted i ∷ close_client ∷ []) r)
deferred-Shaped i (done u, t) mid e h =
    inr (mid, ap (λ l. l ++ conn_deleted i ∷ close_client ∷ []) e, h)
deferred-Shaped i (failed x, t) mid e h =
    inr (mid, ap (λ l. l ++ conn_deleted i ∷ close_client ∷ []) e, h)
deferred-Shaped i (blocked, t) mid e h = inl refl

relay-Shaped : (w : Setting) (s : Session) → Shaped w.index (relay w (record s { effects = [] }))
unfolding relay ◌>>◌ ◌>>=◌ tell tell_all finally
relay-Shaped w s =
    let t = record s { effects = conn_stored w.index ∷ [] } in
    let (mid, added, all, ends) = (Does-handshake w).runs t in
    deferred-Shaped w.index (handshake w t) mid added all

module _ (info : ConnInfo) where
  change_info_elsewhere :
      (f : ConnInfo → ConnInfo) (j : ℕ) (c : Counters)
      → (info.index == j) ≡ false
      → lookup j (change_info info.index f c).conn_info ≡ lookup j c.conn_info
  change_info_elsewhere f j c ne = elim (Option-cases (lookup info.index c.conn_info)) [
    | inl unknown ↦ rw (unknown, change_info) refl
    | inr (old, known) ↦
        rw (known, change_info) (lookup-insert info.index j (f old) c.conn_info ∙ rw ne refl)
  ]

  -- Only entries of its own index change.
  record_effect_elsewhere :
      (e : Effect) (j : ℕ) (c : Counters)
      → NoEntry e
      → (info.index == j) ≡ false
      → lookup j (record_effect info e c).conn_info ≡ lookup j c.conn_info
  unfolding record_effect
  record_effect_elsewhere (conn_stored i) j c h ne = absurd (cc)
  record_effect_elsewhere (conn_deleted i) j c h ne = absurd (cc)
  record_effect_elsewhere (set_module name) j c h ne = change_info_elsewhere _ j c ne
  record_effect_elsewhere (set_upstream name) j c h ne = change_info_elsewhere _ j c ne
  record_effect_elsewhere e j c h ne = refl

  record_effects_elsewhere :
      (es : List Effect) (j : ℕ) (c : Counters)
      → All NoEntry es
      → (info.index == j) ≡ false
      → lookup j (record_effects info es c).conn_info ≡ lookup j c.conn_info
  unfolding record_effects
  record_effects_elsewhere [] j c h ne = refl
  record_effects_elsewhere (e ∷ es) j c (h, hs) ne =
      record_effects_elsewhere es j (record_effect info e c) hs ne
      ∙ record_effect_elsewhere e j c h ne

  -- The counts of `handleConn` itself are not touched.
  record_effect_counts :
      (e : Effect) (c : Counters)
      → ((record_effect info e c).active_conn_count ≡ c.active_conn_count)
        × ((record_effect info e c).accepted_conn_count ≡ c.accepted_conn_count)
  unfolding record_effect
  record_effect_counts (set_module name) c = ground arith
  record_effect_counts (set_upstream name) c = ground arith
  record_effect_counts e c = (refl, refl)

  record_effects_counts :
      (es : List Effect) (c : Counters)
      → ((record_effects info es c).active_conn_count ≡ c.active_conn_count)
        × ((record_effects info es c).accepted_conn_count ≡ c.accepted_conn_count)
  unfolding record_effects
  record_effects_counts [] c = (refl, refl)
  record_effects_counts (e ∷ es) c =
      let (a, b) = record_effects_counts es (record_effect info e c) in
      let (a', b') = record_effect_counts e c in (a ∙ a', b ∙ b')

  record_effects-append :
      (es fs : List Effect) (c : Counters)
      → record_effects info (es ++ fs) c ≡ record_effects info fs (record_effects info es c)
  unfolding record_effects
  record_effects-append [] fs c = refl
  record_effects-append (e ∷ es) fs c = record_effects-append es fs (record_effect info e c)

lookup-remove :
    (i j : ℕ) (m : List (ℕ × ConnInfo))
    → lookup j (remove i m) ≡ (if i == j then none else lookup j m)
unfolding lookup remove
lookup-remove i j [] = ground arith
lookup-remove i j ((k, v) ∷ m) = ground (arith, lookup-remove i j m)

-- What is known of the connections is as before, but for the index of this one, which is free.
conn_info_after :
    (info : ConnInfo) (mid : List Effect) (j : ℕ) (c : Counters)
    → All NoEntry mid
    → lookup j
        (record_effects info
          (conn_stored info.index ∷ (mid ++ conn_deleted info.index ∷ close_client ∷ []))
          c).conn_info
      ≡ (if info.index == j then none else lookup j c.conn_info)
unfolding record_effects record_effect
conn_info_after info mid j c h =
    let c1 = record c { conn_info = insert info.index info c.conn_info } in
    ap (λ (d : Counters). lookup j d.conn_info)
      (record_effects-append info mid (conn_deleted info.index ∷ close_client ∷ []) c1)
    ∙ lookup-remove info.index j (record_effects info mid c1).conn_info
    ∙ elim (Bool-cases (info.index == j)) [
      | inl own ↦ rw own refl
      | inr ne ↦ rw ne (
          record_effects_elsewhere info mid j c1 h ne
          ∙ lookup-insert info.index j info c.conn_info
          ∙ rw ne refl)
    ]

active_back : (a : ℤ) → a +ℤ pos 1 +ℤ negsuc 0 ≡ a
unfolding ◌+ℤ◌
active_back a = eq_of_parts _ a (ground arith)

-- `d` is `c` after a connection of index `i` that has ended.
abbrev pub Restored : ℕ → Counters → Counters → Type 0
Restored i c d =
    (d.active_conn_count ≡ c.active_conn_count)
    × (d.accepted_conn_count ≡ add_u64 c.accepted_conn_count 1)
    × ((j : ℕ) → lookup j d.conn_info ≡ (if i == j then none else lookup j c.conn_info))

module _ (conn : Conn) (c : Counters) (es mid : List Effect)
    (is : es
      ≡ conn_stored (next_index c) ∷ (mid ++ conn_deleted (next_index c) ∷ close_client ∷ []))
    (h : All NoEntry mid) where
  info : ConnInfo
  info = new_info conn (next_index c)

  counted : Counters
  unfolding info
  counted = record_effects info es (open_conn c)

  counted-Restored :
      Restored
        (next_index c)
        c
        (record counted { active_conn_count = counted.active_conn_count +ℤ negsuc 0 })
  unfolding counted open_conn
  counted-Restored = (
    ap (λ a. a +ℤ negsuc 0) (record_effects_counts info es (open_conn c)).0
        ∙ active_back c.active_conn_count,
    (record_effects_counts info es (open_conn c)).1,
    λ j.
        ap (λ l. lookup j (record_effects info l (open_conn c)).conn_info) is
        ∙ conn_info_after info mid j (open_conn c) h,
  )

-- With the effects that a run has, if it ends.
close_conn-Restored :
    (conn : Conn) (c : Counters) (r : Outcome (Unit {0}) × Session)
    → Shaped (next_index c) r
    → (r.0 ≡ blocked)
      ⊎ Restored
          (next_index c)
          c
          (close_conn r.0 (record_effects (new_info conn (next_index c)) r.1.effects (open_conn c)))
unfolding close_conn counted
close_conn-Restored conn c (o, t) (inl waits) = inl waits
close_conn-Restored conn c (blocked, t) (inr x) = inl refl
close_conn-Restored conn c (done u, t) (inr (mid, e, h)) =
    inr (counted-Restored conn c t.effects mid e h)
close_conn-Restored conn c (failed x, t) (inr (mid, e, h)) =
    inr (counted-Restored conn c t.effects mid e h)

-- However a connection that runs alone ends, with an error or a panic too, it is counted as
-- accepted once, the number of active connections is as before, and of the known connections only
-- the entry of its own index can have changed, which is gone.
pub handle_conn_restores :
    (conn : Conn) (w : Setting) (s : Session) (c : Counters)
    → ((handle_conn conn w s c).0 ≡ blocked) ⊎ Restored (next_index c) c (handle_conn conn w s c).1
unfolding handle_conn
handle_conn_restores conn w s c =
    close_conn-Restored conn c (run_relay w s c)
      (relay-Shaped (record w { index = next_index c }) s)
