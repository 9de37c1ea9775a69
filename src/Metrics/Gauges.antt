-- ===== src/Metrics/Gauges.antt =====
-- The gauges of the outbox after a refresh, and the table they are of.
use kaftar.Prelude.{
  ℕ, String, ◌≡◌, refl, List, [], ◌∷◌, true, false, All, any, str_eq, filter, arith, Bool-cases,
  inl, inr, if◌then◌else◌,
}
use kaftar.Entity.Time.{Time}
use kaftar.Entity.Channel.{Channel}
use kaftar.Entity.Channel
use kaftar.Entity.State
use kaftar.Entity.State.{OutboxState, pending, sending, failed, sent, dead, other}
use kaftar.Repo.Model.{Row, same_state}
use kaftar.Repo.Table.{Store, select_rows}
use kaftar.Repo.Stats.{
  OutboxCount, add_row, group_counts, channel_in, state_in, channels, states, is_counted, stats,
}
use kaftar.Repo.Counts.{
  live, tally, number, Unique, counts_of, same_group, same_group-counts_of, same_group-counts_of,
}
use kaftar.Repo.Oldest.{at_once}
use kaftar.Repo.Census.{stats-IsCensus}
use kaftar.Metrics.Vector.{Vector, value_at, same_labels, value_at-change}
use kaftar.Metrics.Labels.{channel_label}
use kaftar.Metrics.Observers.{Metrics, set}
use kaftar.Metrics.Outbox.{set_counts, refresh_outbox}

own_label : (c : Channel) → channel_in channels c ≡ true → channel_label c ≡ c
unfolding channel_label channel_in any Channel.is_valid
own_label c h = ground arith

state_names :
    (a b : OutboxState)
    → State.is_valid a ≡ true
    → State.is_valid b ≡ true
    → str_eq (State.to_string a) (State.to_string b) ≡ same_state a b
unfolding State.is_valid State.to_string same_state State.to_int
state_names pending pending h k = refl
state_names pending sending h k = refl
state_names pending failed h k = refl
state_names pending sent h k = refl
state_names pending dead h k = refl
state_names sending pending h k = refl
state_names sending sending h k = refl
state_names sending failed h k = refl
state_names sending sent h k = refl
state_names sending dead h k = refl
state_names failed pending h k = refl
state_names failed sending h k = refl
state_names failed failed h k = refl
state_names failed sent h k = refl
state_names failed dead h k = refl
state_names sent pending h k = refl
state_names sent sending h k = refl
state_names sent failed h k = refl
state_names sent sent h k = refl
state_names sent dead h k = refl
state_names dead pending h k = refl
state_names dead sending h k = refl
state_names dead failed h k = refl
state_names dead sent h k = refl
state_names dead dead h k = refl
state_names (other n) b h k = absurd (ground arith)
state_names pending (other n) h k = absurd (ground arith)
state_names sending (other n) h k = absurd (ground arith)
state_names failed (other n) h k = absurd (ground arith)
state_names sent (other n) h k = absurd (ground arith)
state_names dead (other n) h k = absurd (ground arith)

-- A count whose channel and state have labels of their own.
IsLabelled : OutboxCount → Type 0
IsLabelled c = (channel_in channels c.channel ≡ true) × (State.is_valid c.state ≡ true)

add_row-IsLabelled :
    (r : Row) (cs : List OutboxCount)
    → channel_in channels r.channel ≡ true
    → State.is_valid r.state ≡ true
    → All IsLabelled cs
    → All IsLabelled (add_row r cs)
unfolding add_row IsLabelled
add_row-IsLabelled r [] h k a = ((h, k), tt)
add_row-IsLabelled r (c ∷ cs) h k a = ground (arith, add_row-IsLabelled r cs h k a.1)

group_counts-IsLabelled :
    (rows : List Row)
    → All (λ r. (channel_in channels r.channel ≡ true) × (State.is_valid r.state ≡ true)) rows
    → All IsLabelled (group_counts rows)
unfolding group_counts
group_counts-IsLabelled [] a = tt
group_counts-IsLabelled (r ∷ rs) a =
    add_row-IsLabelled r (group_counts rs) a.0.0 a.0.1 (group_counts-IsLabelled rs a.1)

module _ (channel : Channel) (state : OutboxState) (named : State.is_valid state ≡ true) where
  abbrev own : List String
  own = channel ∷ State.to_string state ∷ []

  labels-counts_of :
      (c : OutboxCount)
      → IsLabelled c
      → same_labels (channel_label c.channel ∷ State.to_string c.state ∷ []) own
        ≡ counts_of channel state c
  unfolding same_labels IsLabelled
  labels-counts_of c l =
      rw (own_label c.channel l.0, state_names c.state state l.1 named) (ground arith)

  alone :
      (c : OutboxCount) (cs : List OutboxCount)
      → counts_of channel state c ≡ true
      → All (λ d. same_group c d ≡ false) cs
      → (any (counts_of channel state) cs ≡ false) × (tally channel state cs ≡ 0)
  unfolding any tally
  alone c [] h a = (refl, refl)
  alone c (d ∷ cs) h a = ground (arith, alone c cs h a.1, same_group-counts_of channel state c d h)

  -- The last of the counts of a group is its only one.
  value_at-set_counts :
      (cs : List OutboxCount) (v : Vector ℕ)
      → All IsLabelled cs
      → Unique cs
      → value_at 0 own (set_counts cs v)
        ≡ (if any (counts_of channel state) cs then tally channel state cs else value_at 0 own v)
  unfolding set_counts set any tally
  value_at-set_counts [] v l u = refl
  value_at-set_counts (c ∷ cs) v l u =
      let labels = channel_label c.channel ∷ State.to_string c.state ∷ [] in
      let later = value_at-set_counts cs (set labels c.count v) l.1 u.1 in
      let first = value_at-change 0 labels own (λ old. c.count) v in
      elim (Bool-cases (counts_of channel state c)) [
        | inl e ↦
            let (absent, zero_tally) = alone c cs e u.0 in
            rw (later, absent, first, labels-counts_of c l.0, e, zero_tally) (omega arith)
        | inr e ↦ rw (later, first, labels-counts_of c l.0, e) refl
      ]

  uncounted :
      (cs : List OutboxCount)
      → any (counts_of channel state) cs ≡ false
      → tally channel state cs ≡ 0
  unfolding any tally
  uncounted [] h = refl
  uncounted (c ∷ cs) h = ground (arith, uncounted cs)

  gauge-tally :
      (cs : List OutboxCount)
      → All IsLabelled cs
      → Unique cs
      → value_at 0 own (set_counts cs []) ≡ tally channel state cs
  unfolding value_at
  gauge-tally cs l u = elim (Bool-cases (any (counts_of channel state) cs)) [
    | inl e ↦ rw (value_at-set_counts cs [] l u, e) refl
    | inr e ↦ rw (value_at-set_counts cs [] l u, e, uncounted cs e) refl
  ]

named_in : (state : OutboxState) → State.is_valid state ≡ true → state_in states state ≡ true
unfolding state_in same_state State.to_int any State.is_valid
named_in pending h = refl
named_in sending h = refl
named_in failed h = refl
named_in sent h = refl
named_in dead h = refl
named_in (other n) h = absurd (ground arith)

selected :
    (s : Store)
    → All (λ r. State.is_valid r.state ≡ true) s
    → All
        (λ r. (channel_in channels r.channel ≡ true) × (State.is_valid r.state ≡ true))
        (select_rows is_counted s)
unfolding select_rows filter is_counted
selected [] a = tt
selected (r ∷ s) a = ground (arith, selected s a.1)

counted-IsLabelled :
    (s : Store)
    → All (λ r. State.is_valid r.state ≡ true) s
    → All IsLabelled (group_counts (select_rows is_counted s))
counted-IsLabelled s a = group_counts-IsLabelled (select_rows is_counted s) (selected s a)

-- If every row has one of the named states, and the table does not change while Stats reads it,
-- then after a refresh the gauge of each channel that Stats counts, and each named state, shows
-- how many rows of the table have them, deleted rows apart.
pub refresh_outbox-number :
    (s : Store) (now : Time) (m : Metrics) (channel : Channel) (state : OutboxState)
    → All (λ r. State.is_valid r.state ≡ true) s
    → channel_in channels channel ≡ true
    → State.is_valid state ≡ true
    → value_at 0
        (channel ∷ State.to_string state ∷ [])
        (refresh_outbox (stats (at_once s)) now m).outbox_messages
      ≡ number channel state (filter live s)
unfolding refresh_outbox
refresh_outbox-number s now m channel state a c named =
    let (answer, e, census) = stats-IsCensus s in
    let l = counted-IsLabelled s a in
    rw (e, gauge-tally channel state named answer.counts (rw census.grouped l) census.unique)
      (census.counted channel state c (named_in state named))
