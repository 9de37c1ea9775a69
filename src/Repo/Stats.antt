-- ===== src/Repo/Stats.antt =====
-- Stats of server/internal/repository/outbox_repo/repo.go. Its statements run outside a transaction,
-- so each of them sees a table of its own.
use kaftar.Prelude.{
  ℕ, suc, String, Option, none, some, List, [], ◌∷◌, Bool, ◌&&◌, str_eq, any, leb, if◌then◌else◌,
}
use kaftar.Entity.Time.{Time}
use kaftar.Entity.Channel.{
  Channel, channel_bale, channel_email, channel_http, channel_mattermost, channel_sms,
}
use kaftar.Entity.State.{OutboxState, pending, sending, failed, sent, dead}
use kaftar.Repo.Errors.{Result, ok, err, ◌>>=◌, gorm_not_found}
use kaftar.Repo.Model.{Row, same_state}
use kaftar.Repo.Table.{Store, select_rows, order_by, head_row, attempt}

pub record OutboxCount : Type 0 where
  pub channel : Channel
  pub state : OutboxState
  pub count : ℕ

pub record OldestPending : Type 0 where
  pub channel : Channel
  pub eligible_at : Time

pub record OutboxStats : Type 0 where
  pub counts : List OutboxCount
  pub oldest_pending : List OldestPending

-- What the statements see and how they fail: the counting, the listing of channels, and the reading
-- of the oldest row of each channel.
pub record Reads : Type 0 where
  pub counted : Store
  pub count_fault : Option String
  pub listed : Store
  pub list_fault : Option String
  pub read : Channel → Store
  pub read_fault : Channel → Option String

abbrev pub channels : List Channel
channels = channel_bale ∷ channel_email ∷ channel_http ∷ channel_mattermost ∷ channel_sms ∷ []

abbrev pub states : List OutboxState
states = pending ∷ sending ∷ failed ∷ sent ∷ dead ∷ []

abbrev pub waiting : List OutboxState
waiting = pending ∷ failed ∷ []

-- channel IN …, state IN …
unfoldable pub channel_in : List Channel → Channel → Bool
unfolding any
channel_in cs c = any (λ k. str_eq c k) cs

unfoldable pub state_in : List OutboxState → OutboxState → Bool
unfolding any
state_in ss s = any (λ k. same_state s k) ss

abbrev pub in_group : Row → OutboxCount → Bool
in_group r c = str_eq r.channel c.channel && same_state r.state c.state

unfoldable pub add_row : Row → List OutboxCount → List OutboxCount
add_row r [] = record { channel = r.channel; state = r.state; count = 1 } ∷ []
add_row r (c ∷ cs) =
    let rest = add_row r cs in
    if in_group r c then record c { count = suc c.count } ∷ cs else c ∷ rest

-- GROUP BY channel, state with COUNT(*). The database may give the groups in another order.
unfoldable pub group_counts : List Row → List OutboxCount
unfolding add_row
group_counts [] = []
group_counts (r ∷ rs) = add_row r (group_counts rs)

-- SELECT DISTINCT channel
unfoldable pub distinct_channels : List Row → List Channel
unfolding channel_in
distinct_channels [] = []
distinct_channels (r ∷ rs) =
    let rest = distinct_channels rs in if channel_in rest r.channel then rest else r.channel ∷ rest

abbrev pub or_not_found : Option Row → Result Row
or_not_found none = err gorm_not_found
or_not_found (some r) = ok r

-- The WHERE clauses of the three statements.
unfoldable pub is_counted : Row → Bool
unfolding channel_in state_in
is_counted r = channel_in channels r.channel && state_in states r.state

unfoldable pub is_waiting : Row → Bool
unfolding channel_in state_in
is_waiting r = channel_in channels r.channel && state_in waiting r.state

unfoldable pub waits_in : Channel → Row → Bool
unfolding state_in
waits_in channel r = str_eq r.channel channel && state_in waiting r.state

abbrev pub by_eligible_at : Row → Row → Bool
by_eligible_at a b = leb a.eligible_at b.eligible_at

module _ (reads : Reads) where
  -- First, with the rows of the channel in the order of eligible_at.
  unfoldable pub oldest_row : Channel → Result Row
  unfolding select_rows order_by waits_in
  oldest_row channel = do
    rows ←
        attempt (reads.read_fault channel)
          (order_by by_eligible_at (select_rows (waits_in channel) (reads.read channel)))
    or_not_found (head_row rows)

  -- The loop over the channels: the first error ends it.
  unfoldable pub oldest_of : List Channel → Result (List OldestPending)
  unfolding oldest_row
  oldest_of [] = ok []
  oldest_of (c ∷ cs) = do
    r ← oldest_row c
    rest ← oldest_of cs
    ok (record { channel = c; eligible_at = r.eligible_at } ∷ rest)

  -- (*repo).Stats
  unfoldable pub stats : Result OutboxStats
  unfolding group_counts distinct_channels oldest_of select_rows is_counted is_waiting
  stats = do
    counts ← attempt reads.count_fault (group_counts (select_rows is_counted reads.counted))
    pending_channels ←
        attempt reads.list_fault (distinct_channels (select_rows is_waiting reads.listed))
    oldest ← oldest_of pending_channels
    ok (record { counts = counts; oldest_pending = oldest })
