-- ===== src/Relay/Transfers.antt =====
-- What `relay` counts of the transfers that it finishes.
use rsync_proxy.Relay.Triples.{
  Does-block, Does, Any, Does-tell, Does-tell_all, Does-then, Does-fail, Does-write_upstream,
  Does-read_upstream, Does-try_write_client,
}
use rsync_proxy.Base.{
  ℕ, ◌+◌, ◌≡◌, refl, ◌⊎◌, inl, inr, Bool, true, false, List, [], ◌∷◌, ◌++◌, append_assoc, arith,
  if◌then◌else◌, Option-cases, Bytes, codes, has_prefix, All, lookup, bytes_eq,
}
use rsync_proxy.Relay.Effects.{
  Effect, is_slot, is_count, touches_upstream, is_entry, count_completed, count_module,
  close_upstream, close_client, close_read_client, close_read_upstream,
}
use rsync_proxy.Relay.Script.{
  RelayError, no_queue, index_panic, unknown_version_up, dial_failed, send_version_up,
  send_module_up, read_version_up, blocked, Session, M, ◌>>=◌, ◌>>◌, tell, tell_all,
}
use rsync_proxy.Relay.Parts.{is_broken, Does-queue_up, Does-send_proxy_header, Does-forward_motd}
use rsync_proxy.Relay.Outer.{IsQuiet, relay_J}
use rsync_proxy.Relay.Traces.{
  AnyError, Leaves, Ignores, Leaves-none, Leaves-then, Leaves-bind, Leaves-if, Leaves-finally,
  Leaves-Judgement,
}
use rsync_proxy.Routing.{Target}
use rsync_proxy.Wire.{rsyncd_version_prefix}
use rsync_proxy.Relay.{Setting, talk, connect, with_slot, serve_target, finish_copy, relay}
use rsync_proxy.Relay.Texts.{after_line_feed}

abbrev NoCount : Effect → Type 0
NoCount e = is_count e ≡ false

abbrev pub weigh {ℓ} : {A : Type ℓ} → (A → ℕ) → List A → ℕ
weigh f [] = 0
weigh f (e ∷ es) = f e + weigh f es

weigh-append {ℓ} :
    {A : Type ℓ} (f : A → ℕ) (xs ys : List A) → weigh f (xs ++ ys) ≡ weigh f xs + weigh f ys
weigh-append f [] ys = omega arith
weigh-append f (x ∷ xs) ys = omega (arith, weigh-append f xs ys)

-- What an effect adds to the totals of the server, and what to those of some module.
abbrev pub done_count : Effect → ℕ
done_count (count_completed n k) = 1
done_count e = 0

abbrev pub done_sent : Effect → ℕ
done_sent (count_completed n k) = n
done_sent e = 0

abbrev pub done_received : Effect → ℕ
done_received (count_completed n k) = k
done_received e = 0

abbrev pub module_count : Effect → ℕ
module_count (count_module m u n k) = 1
module_count e = 0

abbrev pub module_sent : Effect → ℕ
module_sent (count_module m u n k) = n
module_sent e = 0

abbrev pub module_received : Effect → ℕ
module_received (count_module m u n k) = k
module_received e = 0

-- The two agree.
pub record IsCounted (es : List Effect) : Type 0 where
  pub counts : weigh done_count es ≡ weigh module_count es
  pub sent : weigh done_sent es ≡ weigh module_sent es
  pub received : weigh done_received es ≡ weigh module_received es

uncounted : (e : Effect) → NoCount e → IsCounted (e ∷ [])
uncounted (count_completed n k) h = absurd (cc)
uncounted (count_module m u n k) h = absurd (cc)
uncounted e h = record { counts = refl; sent = refl; received = refl }

IsCounted-append : (es fs : List Effect) → IsCounted es → IsCounted fs → IsCounted (es ++ fs)
IsCounted-append es fs a b = record {
  counts =
      omega
        (arith, weigh-append done_count es fs, weigh-append module_count es fs, a.counts, b.counts);
  sent =
      omega (arith, weigh-append done_sent es fs, weigh-append module_sent es fs, a.sent, b.sent);
  received = omega (
    arith,
    weigh-append done_received es fs,
    weigh-append module_received es fs,
    a.received,
    b.received,
  );
}

IsCounted-none : (es : List Effect) → All NoCount es → IsCounted es
IsCounted-none [] h = record { counts = refl; sent = refl; received = refl }
IsCounted-none (e ∷ es) (h, hs) =
    IsCounted-append (e ∷ []) es (uncounted e h) (IsCounted-none es hs)

IsCounted-Ignores : Ignores NoCount IsCounted
IsCounted-Ignores = record {
  holds_of_none = IsCounted-none;
  before = λ es fs h b. IsCounted-append es fs (IsCounted-none es h) b;
  after = λ es fs b h. IsCounted-append es fs b (IsCounted-none fs h);
}

anything : (e : RelayError) → is_broken e ≡ false → AnyError e
anything e h = tt

quietly : (e : Effect) → is_slot e ≡ false → is_count e ≡ false → is_entry e ≡ false → NoCount e
quietly e h k _ = k

-- The two counts stand side by side.
both_counts :
    (name upstream : Bytes) (n k : ℕ) (last : Effect)
    → NoCount last
    → Leaves IsCounted
        (tell (count_completed n k) >> (tell (count_module name upstream n k) >> tell last))
unfolding ◌>>◌ ◌>>=◌ tell tell_all
both_counts name upstream n k last h = record {
  leaves = λ s. inr (
    count_completed n k ∷ count_module name upstream n k ∷ last ∷ [],
    simp append_assoc,
    IsCounted-append (count_completed n k ∷ count_module name upstream n k ∷ []) (last ∷ [])
        (record { counts = refl; sent = omega arith; received = omega arith }) (uncounted last h),
  );
}

-- What touches no upstream counts no transfer.
untouched : (e : Effect) → touches_upstream e ≡ false → NoCount e
untouched (count_completed n k) h = h
untouched (count_module m u n k) h = h
untouched e h = refl

module _ (w : Setting) (target : Target) (name version : Bytes) where
  then_counts :
      (m k : M (Unit {0}))
      → Does NoCount AnyError Any m
      → Leaves IsCounted k
      → Leaves IsCounted (m >> k)
  then_counts m k h b = Leaves-then NoCount IsCounted IsCounted-Ignores m k h b

  plain_counts : (m : M (Unit {0})) → Does NoCount AnyError Any m → Leaves IsCounted m
  plain_counts m h = Leaves-none NoCount IsCounted IsCounted-Ignores m h

  finish_copy_counts : Leaves IsCounted (finish_copy w target name)
  unfolding finish_copy
  finish_copy_counts =
      Leaves-if NoCount IsCounted IsCounted-Ignores w.one_ends _ _
        (then_counts _ _ (Does-tell_all NoCount AnyError _ (closes w.received_first)) (
          Leaves-if NoCount IsCounted IsCounted-Ignores w.both_end _ _
            (both_counts name target.upstream w.sent_bytes w.received_bytes _ refl)
            (plain_counts _ (Does-block NoCount AnyError Any))))
        (plain_counts _ (Does-block NoCount AnyError Any))
    where
      closes :
          (b : Bool)
          → All NoCount (
              if b
              then close_read_upstream ∷ close_client ∷ []
              else close_read_client ∷ close_upstream ∷ [])
      closes true = (refl, (refl, tt))
      closes false = (refl, (refl, tt))

  talk_counts : Leaves IsCounted (talk w target name version)
  unfolding talk
  talk_counts =
      then_counts _ _ (Does-send_proxy_header NoCount AnyError anything quietly w target) (
        then_counts _ _ (Does-write_upstream NoCount AnyError version send_version_up refl tt) (
          Leaves-bind NoCount IsCounted IsCounted-Ignores _ _
            (Does-read_upstream NoCount AnyError read_version_up tt)
            (λ answer.
              Leaves-if NoCount IsCounted IsCounted-Ignores
                (has_prefix answer rsyncd_version_prefix) _ _
                (then_counts _ _
                  (Does-forward_motd NoCount AnyError anything quietly
                    (after_line_feed answer answer))
                  (then_counts _ _
                    (Does-write_upstream NoCount AnyError (name ++ codes "\n") send_module_up refl
                      tt)
                    (then_counts _ _ (Does-tell NoCount AnyError _ refl)
                      (then_counts _ _ (Does-tell NoCount AnyError _ refl) finish_copy_counts))))
                (plain_counts _ (Does-fail NoCount AnyError Any unknown_version_up tt)))))

  connect_counts : Leaves IsCounted (connect w target name version)
  unfolding connect
  connect_counts =
      Leaves-if NoCount IsCounted IsCounted-Ignores (w.dial target.addr) _ _
        (then_counts _ _ (Does-tell NoCount AnyError _ refl)
          (Leaves-finally NoCount IsCounted IsCounted-Ignores _ _ (refl, tt) talk_counts))
        (plain_counts _ (
          Does-then NoCount AnyError Any _ _ (Does-tell NoCount AnyError _ refl)
            (Does-fail NoCount AnyError Any dial_failed tt)))

  with_slot_counts : Leaves IsCounted (with_slot w target name version)
  unfolding with_slot
  with_slot_counts =
      Leaves-if NoCount IsCounted IsCounted-Ignores w.first_status.full _ _
        (then_counts _ _ (Does-tell NoCount AnyError _ refl) (
          then_counts _ _ (Does-tell NoCount AnyError _ refl) (
            then_counts _ _ (Does-try_write_client NoCount AnyError _ refl)
              (plain_counts _ (Does-try_write_client NoCount AnyError _ refl)))))
        (then_counts _ _
          (Does-queue_up NoCount AnyError anything (λ e h _ _. untouched e h) w target name)
          connect_counts)

  serve_target_counts : Leaves IsCounted (serve_target w target name version)
  unfolding serve_target
  serve_target_counts =
      then_counts _ _ (Does-tell NoCount AnyError _ refl)
        (elim (Option-cases (lookup target.upstream w.at_queue.upstream_queues)) [
          | inl missing ↦ rw missing (plain_counts _ (Does-fail NoCount AnyError Any no_queue tt))
          | inr (p, found) ↦ rw found (
              then_counts _ _ (Does-tell NoCount AnyError _ refl) (
                Leaves-finally NoCount IsCounted IsCounted-Ignores _ _ (refl, tt) with_slot_counts))
        ])

-- A connection's run, unless it waits for something that never comes, counts as many transfers and
-- bytes in the totals of the server as in the counters of modules and upstreams.
pub relay-IsCounted :
    (w : Setting) (s : Session)
    → ((relay w s).0 ≡ blocked)
      ⊎ ((es : List Effect) × ((relay w s).1.effects ≡ s.effects ++ es) × IsCounted es)
relay-IsCounted w s =
    let run =
      relay_J IsQuiet (λ _ a b _. (a, b)) (Leaves IsCounted)
        (Leaves-Judgement NoCount IsCounted IsCounted-Ignores IsQuiet (λ e q. untouched e q.0)) w
        (λ name version targets target _ _. serve_target_counts w target name version)
        (λ _ _ _ _.
          Leaves-none NoCount IsCounted IsCounted-Ignores _
            (Does-fail NoCount AnyError Any index_panic tt))
        (λ i. ((refl, refl), (refl, refl))) in
    run.leaves s
