-- ===== src/Metrics/Outbox.antt =====
-- The collector of outbox statistics of metrics.go.
use kaftar.Prelude.{ℕ, ◌+◌, ◌-◌, ◌*◌, ◌/◌, List, [], ◌∷◌, if◌then◌else◌, ℤ, pos, ltb_ℤ}
use kaftar.Entity.Time.{Time, second, day, time_zero}
use kaftar.Entity.State
use kaftar.Repo.Errors.{Result, ok, err}
use kaftar.Repo.Stats.{OutboxStats, OutboxCount, OldestPending}
use kaftar.Metrics.Vector.{Vector, change}
use kaftar.Metrics.Labels.{channel_label}
use kaftar.Metrics.Observers.{Metrics, Seconds, seconds, set}

-- Durations, which may be negative.
pub record CollectorConfig : Type 0 where
  pub interval : ℤ
  pub timeout : ℤ

abbrev positive_or : ℕ → ℤ → ℤ
positive_or default d = if ltb_ℤ (pos 0) d then d else pos default

-- The defaults of StartOutboxCollector.
unfoldable pub with_defaults : CollectorConfig → CollectorConfig
with_defaults config = record {
  interval = positive_or (15 * second) config.interval;
  timeout = positive_or (2 * second) config.timeout;
}

-- 1 January 1970, and Unix(): an instant before it would be negative, and is 0 here.
abbrev pub unix_epoch : Time
unix_epoch = time_zero + 719162 * day

abbrev unix : Time → ℕ
unix now = (now - unix_epoch) / second

-- The loop over the counts.
unfoldable pub set_counts : List OutboxCount → Vector ℕ → Vector ℕ
unfolding set channel_label State.to_string
set_counts [] v = v
set_counts (c ∷ cs) v =
    set_counts cs (set (channel_label c.channel ∷ State.to_string c.state ∷ []) c.count v)

-- The loop over the oldest rows: the age in seconds, and at least 0, as subtraction on ℕ is.
unfoldable pub set_ages : Time → List OldestPending → Vector Seconds → Vector Seconds
unfolding change seconds channel_label
set_ages now [] v = v
set_ages now (o ∷ os) v =
    let age = seconds (now - o.eligible_at) in
    set_ages now os (change (seconds 0) (channel_label o.channel ∷ []) (λ old. age) v)

-- refreshOutbox, of what Stats answers.
unfoldable pub refresh_outbox : Result OutboxStats → Time → Metrics → Metrics
unfolding set_counts set_ages
refresh_outbox (err e) now m = record m { outbox_collector_success = 0 }
refresh_outbox (ok answer) now m = record m {
  outbox_messages = set_counts answer.counts [];
  outbox_oldest_pending_age = set_ages now answer.oldest_pending [];
  outbox_collector_success = 1;
  outbox_collector_last_success = unix now;
}

-- What the goroutine's select receives.
pub data Tick : Type 0 where
  ticked : Result OutboxStats → Time → Tick
  done : Tick

unfoldable pub collect_rest : List Tick → Metrics → Metrics
unfolding refresh_outbox
collect_rest [] m = m
collect_rest (ticked answer now ∷ rest) m = collect_rest rest (refresh_outbox answer now m)
collect_rest (done ∷ rest) m = m

-- The goroutine of StartOutboxCollector: it refreshes once before it waits.
unfoldable pub collect : Result OutboxStats → Time → List Tick → Metrics → Metrics
unfolding refresh_outbox collect_rest
collect answer now ticks m = collect_rest ticks (refresh_outbox answer now m)
