-- ===== src/Repo/Census.antt =====
-- What Stats answers when nothing fails and the table does not change under it.
use kaftar.Prelude.{
  ◌≡◌, refl, ◌∙◌, List, [], ◌∷◌, map, Bool, true, ◌&&◌, All, All-mono, any, filter, arith,
  str_eq_refl, Bool-cases, inl, inr,
}
use kaftar.Entity.Channel.{Channel}
use kaftar.Entity.State.{OutboxState}
use kaftar.Repo.Model.{Row}
use kaftar.Repo.Errors.{ok}
use kaftar.Repo.Table.{Store, select_rows}
use kaftar.Repo.Counts.{
  live, tally, number, Unique, tally-group_counts, number-select_rows, group_counts-Unique,
}
use kaftar.Repo.Oldest.{IsOldest, at_once, HasWaiting, oldest_of-ok}
use kaftar.Repo.Stats.{
  OutboxStats, stats, waits_in, is_waiting, is_counted, group_counts, distinct_channels, channel_in,
  state_in, channels, states,
}

module _ (Q : Channel → Type 0) where
  distinct_channels-All :
      (rows : List Row) → All (λ r. Q r.channel) rows → All Q (distinct_channels rows)
  unfolding distinct_channels
  distinct_channels-All [] a = tt
  distinct_channels-All (r ∷ rs) a = ground (arith, distinct_channels-All rs a.1)

still_listed :
    (c : Channel) (r : Row) (rs : List Row)
    → channel_in (distinct_channels rs) c ≡ true
    → channel_in (distinct_channels (r ∷ rs)) c ≡ true
unfolding distinct_channels channel_in any
still_listed c r rs h = ground arith

head_listed : (r : Row) (rs : List Row) → channel_in (distinct_channels (r ∷ rs)) r.channel ≡ true
unfolding distinct_channels channel_in any
head_listed r rs = elim (Bool-cases (channel_in (distinct_channels rs) r.channel)) [
  | inl h ↦ ground (arith, h)
  | inr h ↦ ground (arith, h, str_eq_refl r.channel)
]

listed : (rows : List Row) → All (λ r. channel_in (distinct_channels rows) r.channel ≡ true) rows
listed [] = tt
listed (r ∷ rs) = (head_listed r rs, All-mono (λ x. still_listed x.channel r rs) rs (listed rs))

any-filter : (p q : Row → Bool) (s : Store) → any p (filter q s) ≡ any (λ x. q x && p x) s
unfolding any filter
any-filter p q [] = refl
any-filter p q (x ∷ s) = ground (arith, any-filter p q s)

waits-in : (x : Row) → is_waiting x ≡ true → waits_in x.channel x ≡ true
unfolding is_waiting waits_in
waits-in x h = ground (arith, str_eq_refl x.channel)

IsFound : Store → Row → Type 0
IsFound s r = any (λ x. live x && waits_in r.channel x) s ≡ true

IsFound-later : (x : Row) (s : Store) (r : Row) → IsFound s r → IsFound (x ∷ s) r
unfolding IsFound any
IsFound-later x s r h = ground arith

IsFound-here : (x : Row) (s : Store) → (live x && is_waiting x) ≡ true → IsFound (x ∷ s) x
unfolding IsFound any
IsFound-here x s h = ground (arith, waits-in x)

all-IsFound : (s : Store) → All (IsFound s) (select_rows is_waiting s)
unfolding select_rows filter
all-IsFound [] = tt
all-IsFound (x ∷ s) = elim (Bool-cases (live x && is_waiting x)) [
  | inl h ↦ rw h (IsFound-here x s h, All-mono (IsFound-later x s) _ (all-IsFound s))
  | inr h ↦ rw h (All-mono (IsFound-later x s) _ (all-IsFound s))
]

any_and : (p : Row → Bool) (s : Store) → any (λ x. p x && true) s ≡ any p s
unfolding any
any_and p [] = refl
any_and p (x ∷ s) = ground (arith, any_and p s)

IsFound-HasWaiting : (s : Store) (r : Row) → IsFound s r → HasWaiting s r.channel
unfolding HasWaiting IsFound select_rows
IsFound-HasWaiting s r h =
    any-filter (λ x. true) (λ x. live x && waits_in r.channel x) s
    ∙ any_and (λ x. live x && waits_in r.channel x) s
    ∙ h

-- The statistics of a table: each count is the number of its rows and no group comes twice, each
-- time is that of the row that waits longest in its channel, and no waiting row is of another
-- channel.
pub record IsCensus (s : Store) (answer : OutboxStats) : Type 0 where
  pub grouped : answer.counts ≡ group_counts (select_rows is_counted s)
  pub counted :
      (channel : Channel) (state : OutboxState)
      → channel_in channels channel ≡ true
      → state_in states state ≡ true
      → tally channel state answer.counts ≡ number channel state (filter live s)
  pub unique : Unique answer.counts
  pub oldest : All (IsOldest s) answer.oldest_pending
  pub complete :
      All
        (λ r. channel_in (map (λ o. o.channel) answer.oldest_pending) r.channel ≡ true)
        (select_rows is_waiting s)

-- If the table does not change between the statements and none fails, Stats answers, and with the
-- statistics of the table.
pub stats-IsCensus :
    (s : Store) → (answer : OutboxStats) × (stats (at_once s) ≡ ok answer) × IsCensus s answer
unfolding stats
stats-IsCensus s =
    let rows = select_rows is_waiting s in
    let waiting_channels =
      distinct_channels-All (HasWaiting s) rows
        (All-mono (IsFound-HasWaiting s) rows (all-IsFound s)) in
    let (l, e, a, m) = oldest_of-ok s (distinct_channels rows) waiting_channels in
    (
      record { counts = group_counts (select_rows is_counted s); oldest_pending = l },
      rw e refl,
      record {
        grouped = refl;
        counted = λ channel state c t.
            tally-group_counts channel state (select_rows is_counted s)
            ∙ number-select_rows channel state s c t;
        unique = group_counts-Unique (select_rows is_counted s);
        oldest = a;
        complete = rw m (listed rows);
      },
    )
