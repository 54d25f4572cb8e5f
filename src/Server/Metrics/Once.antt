-- ===== src/Server/Metrics/Once.antt =====
-- The telemetry of a subsystem can be made once, and beside that of every other.
use gpgfs.Base.{ℕ, String, ◌≡◌, ◌≢◌, refl, ap, ok, panic, arith}
use gpgfs.Std.Strings.{Str}
use gpgfs.Server.Metrics.{Registry, IsRegistry, new_telemetry}
use gpgfs.Server.Metrics.Names.{
  Metric, total, duration, sent, received, metric_name, metric_name-injective,
}

metrics-differ : (m n : Metric) (s : Str) → m ≢ n → metric_name m s ≢ metric_name n s
metrics-differ m n s ne e = ne (metric_name-injective m n s s e).0

index : Metric → ℕ
index total = 0
index duration = 1
index received = 2
index sent = 3

module _ (G : Registry) (L : IsRegistry G) where
  -- None of the names of the subsystem is taken.
  abbrev pub IsFree : Str → G.State → Type 0
  IsFree subsystem s = (m : Metric) → L.Registered (metric_name m subsystem) s → ⊥

  -- Where no name of the subsystem is taken, its telemetry can be made. The names of every other
  -- subsystem that were free are free afterwards; but to make it once more for the same subsystem
  -- panics. The registry behaves as prometheus documents.
  pub new_telemetry-once :
      (subsystem : Str) (s : G.State)
      → IsFree subsystem s
      → (t : G.State) × (new_telemetry G subsystem s ≡ ok t)
        × ((other : Str) → other ≢ subsystem → IsFree other s → IsFree other t)
        × (why : String) × (new_telemetry G subsystem t ≡ panic why)
  unfolding new_telemetry index
  new_telemetry-once subsystem s free =
      let apart : (m n : Metric)
          → index m ≢ index n
          → metric_name m subsystem ≢ metric_name n subsystem =
        λ m n h. metrics-differ m n subsystem (λ e. h (ap index e)) in
      let (s1, e1, taken1, keep1, only1) =
        L.must_register-free (metric_name total subsystem) s (free total) in
      let (s2, e2, taken2, keep2, only2) =
        L.must_register-free (metric_name duration subsystem) s1
          (λ r. free duration (only1 _ (apart duration total (omega arith)) r)) in
      let (s3, e3, taken3, keep3, only3) =
        L.must_register-free (metric_name received subsystem) s2 (λ r. free received (
          only1 _ (apart received total (omega arith))
            (only2 _ (apart received duration (omega arith)) r))) in
      let (t, e4, taken4, keep4, only4) = L.must_register-free (metric_name sent subsystem) s3 (λ r.
        free sent (
          only1 _ (apart sent total (omega arith)) (
            only2 _ (apart sent duration (omega arith))
              (only3 _ (apart sent received (omega arith)) r)))) in
      let (why, again) =
        L.must_register-taken (metric_name total subsystem) t
          (keep4 _ (keep3 _ (keep2 _ taken1))) in
      (
        t,
        rw (e1, e2, e3) e4,
        λ other ne clear m r.
            let other_name : (n : Metric) → metric_name m other ≢ metric_name n subsystem =
              λ n e. ne (metric_name-injective m n other subsystem e).1 in
            clear m (
              only1 _ (other_name total) (
                only2 _ (other_name duration)
                  (only3 _ (other_name received) (only4 _ (other_name sent) r)))),
        why,
        rw again refl,
      )
