-- ===== src/Counters/Fields.antt =====
-- The numbers that are kept twice: in all, and for each module and upstream.
use rsync_proxy.Base.{
  ℕ, ◌+◌, ◌%◌, ◌≡◌, refl, List, [], ◌∷◌, arith, Bytes, bytes_eq, pair_eq, nat_eq, lookup, insert,
}
use rsync_proxy.Relay.Effects.{Effect, count_completed, count_module}
use rsync_proxy.Relay.Transfers.{
  done_count, done_sent, done_received, module_count, module_sent, module_received,
}
use rsync_proxy.Counters.{
  ConnInfo, Counters, ModuleCounters, record_effect, add_module, get_module_counters, add_u64,
  or_fresh,
}

-- The sum of one field over all modules and upstreams.
abbrev pub sum_of : (ModuleCounters → ℕ) → List ((Bytes × Bytes) × ModuleCounters) → ℕ
sum_of f [] = 0
sum_of f ((k, m) ∷ rest) = f m + sum_of f rest

abbrev zero_counts : ModuleCounters
zero_counts = record { completed = 0; sent_bytes = 0; recv_bytes = 0 }

sum_of-insert :
    (f : ModuleCounters → ℕ) (k : Bytes × Bytes) (v : ModuleCounters)
    (m : List ((Bytes × Bytes) × ModuleCounters))
    → f zero_counts ≡ 0
    → sum_of f (insert k v m) + f (or_fresh zero_counts (lookup k m)) ≡ sum_of f m + f v
unfolding insert lookup
sum_of-insert f k v [] z = omega arith
sum_of-insert f k v ((j, w) ∷ m) z = ground (arith, sum_of-insert f k v m z)

abbrev pub width : ℕ
width = 18446744073709551616

-- One of the numbers that are kept twice: in all, and for each module and upstream. An effect adds
-- `done` to the one and `parted` to the other.
pub record Field : Type 0 where
  pub total : Counters → ℕ
  pub part : ModuleCounters → ℕ
  pub done : Effect → ℕ
  pub parted : Effect → ℕ
  pub total_step :
      (info : ConnInfo) (e : Effect) (c : Counters)
      → total (record_effect info e c) % width ≡ (total c + done e) % width
  pub part_step :
      (info : ConnInfo) (e : Effect) (c : Counters)
      → sum_of part (record_effect info e c).module_counters % width
        ≡ (sum_of part c.module_counters + parted e) % width

pub completed_step :
    (info : ConnInfo) (e : Effect) (c : Counters)
    → (record_effect info e c).completed_conn_count % width
      ≡ (c.completed_conn_count + done_count e) % width
unfolding record_effect
completed_step info (count_completed n k) c = omega arith
completed_step info e c = ground arith

pub sent_step :
    (info : ConnInfo) (e : Effect) (c : Counters)
    → (record_effect info e c).sent_bytes_total % width ≡ (c.sent_bytes_total + done_sent e) % width
unfolding record_effect
sent_step info (count_completed n k) c = omega arith
sent_step info e c = ground arith

pub received_step :
    (info : ConnInfo) (e : Effect) (c : Counters)
    → (record_effect info e c).recv_bytes_total % width
      ≡ (c.recv_bytes_total + done_received e) % width
unfolding record_effect
received_step info (count_completed n k) c = omega arith
received_step info e c = ground arith

-- `n` more in one entry is `n` more in the sum.
add_module-sum :
    (part : ModuleCounters → ℕ) (added : ℕ) (key : Bytes × Bytes) (n k : ℕ) (c : Counters)
    → part zero_counts ≡ 0
    → ((v : ModuleCounters)
        → part (record {
          completed = add_u64 v.completed 1;
          sent_bytes = add_u64 v.sent_bytes n;
          recv_bytes = add_u64 v.recv_bytes k;
        })
          ≡ add_u64 (part v) added)
    → sum_of part (add_module key n k c).module_counters % width
      ≡ (sum_of part c.module_counters + added) % width
unfolding add_module
add_module-sum part added key n k c z grows =
    let old = get_module_counters key c in
    let v : ModuleCounters = record {
      completed = add_u64 old.completed 1;
      sent_bytes = add_u64 old.sent_bytes n;
      recv_bytes = add_u64 old.recv_bytes k;
    } in
    omega (arith, sum_of-insert part key v c.module_counters z, grows old)

pub completed_part_step :
    (info : ConnInfo) (e : Effect) (c : Counters)
    → sum_of (λ m. m.completed) (record_effect info e c).module_counters % width
      ≡ (sum_of (λ m. m.completed) c.module_counters + module_count e) % width
unfolding record_effect
completed_part_step info (count_module m u n k) c =
    add_module-sum (λ m. m.completed) 1 _ n k c refl (λ v. refl)
completed_part_step info e c = ground arith

pub sent_part_step :
    (info : ConnInfo) (e : Effect) (c : Counters)
    → sum_of (λ m. m.sent_bytes) (record_effect info e c).module_counters % width
      ≡ (sum_of (λ m. m.sent_bytes) c.module_counters + module_sent e) % width
unfolding record_effect
sent_part_step info (count_module m u n k) c =
    add_module-sum (λ m. m.sent_bytes) n _ n k c refl (λ v. refl)
sent_part_step info e c = ground arith

pub received_part_step :
    (info : ConnInfo) (e : Effect) (c : Counters)
    → sum_of (λ m. m.recv_bytes) (record_effect info e c).module_counters % width
      ≡ (sum_of (λ m. m.recv_bytes) c.module_counters + module_received e) % width
unfolding record_effect
received_part_step info (count_module m u n k) c =
    add_module-sum (λ m. m.recv_bytes) k _ n k c refl (λ v. refl)
received_part_step info e c = ground arith

abbrev pub completed_field : Field
completed_field = record {
  total = λ c. c.completed_conn_count;
  part = λ m. m.completed;
  done = done_count;
  parted = module_count;
  total_step = completed_step;
  part_step = completed_part_step;
}

abbrev pub sent_field : Field
sent_field = record {
  total = λ c. c.sent_bytes_total;
  part = λ m. m.sent_bytes;
  done = done_sent;
  parted = module_sent;
  total_step = sent_step;
  part_step = sent_part_step;
}

abbrev pub received_field : Field
received_field = record {
  total = λ c. c.recv_bytes_total;
  part = λ m. m.recv_bytes;
  done = done_received;
  parted = module_received;
  total_step = received_step;
  part_step = received_part_step;
}
