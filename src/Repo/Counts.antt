-- ===== src/Repo/Counts.antt =====
-- The groups that Stats counts: one for each channel and state, with the number of its rows.
use kaftar.Prelude.{
  ℕ, ◌+◌, ◌≡◌, refl, List, [], ◌∷◌, Bool, true, false, ◌&&◌, not, is_some, any, str_eq, All,
  if◌then◌else◌, filter, length, arith, str_eq_iff, Bool-cases, inl, inr, ℤ, eqb_ℤ,
}
use kaftar.Entity.Channel.{Channel}
use kaftar.Entity.State
use kaftar.Entity.State.{OutboxState}
use kaftar.Repo.Model.{Row, same_state}
use kaftar.Repo.Table.{Store, select_rows}
use kaftar.Repo.Stats.{
  channels, states, channel_in, state_in, is_counted, OutboxCount, in_group, add_row, group_counts,
}

-- The rows of a channel in a state.
abbrev pub is_of : Channel → OutboxState → Row → Bool
is_of channel state r = str_eq r.channel channel && same_state r.state state

unfoldable pub number : Channel → OutboxState → List Row → ℕ
unfolding filter
number channel state rows = length (filter (is_of channel state) rows)

abbrev pub counts_of : Channel → OutboxState → OutboxCount → Bool
counts_of channel state c = str_eq c.channel channel && same_state c.state state

-- The sum of the counts of a channel in a state.
unfoldable pub tally : Channel → OutboxState → List OutboxCount → ℕ
tally channel state [] = 0
tally channel state (c ∷ cs) =
    let rest = tally channel state cs in if counts_of channel state c then c.count + rest else rest

eqb_trans : (a b c : ℤ) → eqb_ℤ a b ≡ true → eqb_ℤ a c ≡ eqb_ℤ b c
eqb_trans a b c h = ground arith

state_trans : (a b c : OutboxState) → same_state a b ≡ true → same_state a c ≡ same_state b c
unfolding same_state
state_trans a b c h = eqb_trans (State.to_int a) (State.to_int b) (State.to_int c) h

channel_trans : (a b c : Channel) → str_eq a b ≡ true → str_eq a c ≡ str_eq b c
channel_trans a b c h = rw ((str_eq_iff a b).0 h) refl

group_trans :
    (r : Row) (c : OutboxCount) (channel : Channel) (state : OutboxState)
    → in_group r c ≡ true
    → is_of channel state r ≡ counts_of channel state c
group_trans r c channel state h =
    grind (arith, channel_trans r.channel c.channel channel, state_trans r.state c.state state)

tally-add_row :
    (channel : Channel) (state : OutboxState) (r : Row) (cs : List OutboxCount)
    → tally channel state (add_row r cs)
      ≡ (if is_of channel state r then 1 else 0) + tally channel state cs
unfolding tally add_row
tally-add_row channel state r [] = ground arith
tally-add_row channel state r (c ∷ cs) =
    ground (arith, tally-add_row channel state r cs, group_trans r c channel state)

-- Counting loses no row: the counts of a channel in a state add up to the number of its rows.
pub tally-group_counts :
    (channel : Channel) (state : OutboxState) (rows : List Row)
    → tally channel state (group_counts rows) ≡ number channel state rows
unfolding tally group_counts number filter
tally-group_counts channel state [] = refl
tally-group_counts channel state (r ∷ rs) =
    ground
      (arith, tally-add_row channel state r (group_counts rs), tally-group_counts channel state rs)

eqb_sym : (a b : ℤ) → eqb_ℤ a b ≡ eqb_ℤ b a
eqb_sym a b = ground arith

state_sym : (a b : OutboxState) → same_state a b ≡ same_state b a
unfolding same_state
state_sym a b = eqb_sym (State.to_int a) (State.to_int b)

channel_sym : (a b : Channel) → str_eq a b ≡ str_eq b a
channel_sym a b = elim (Bool-cases (str_eq a b)) [
  | inl h ↦ rw ((str_eq_iff a b).0 h) refl
  | inr h ↦ elim (Bool-cases (str_eq b a)) [
    | inl k ↦ rw ((str_eq_iff b a).0 k) refl
    | inr k ↦ rw (h, k) refl
  ]
]

abbrev pub same_group : OutboxCount → OutboxCount → Bool
same_group c d = str_eq c.channel d.channel && same_state c.state d.state

pub same_group-counts_of :
    (channel : Channel) (state : OutboxState) (c d : OutboxCount)
    → counts_of channel state c ≡ true
    → same_group c d ≡ counts_of channel state d
same_group-counts_of channel state c d h = grind (
  arith,
  channel_trans c.channel channel d.channel,
  state_trans c.state state d.state,
  channel_sym channel d.channel,
  state_sym state d.state,
)

-- No two of the counts are of the same channel and state.
abbrev pub Unique : List OutboxCount → Type 0
Unique [] = Unit
Unique (c ∷ cs) = All (λ d. same_group c d ≡ false) cs × Unique cs

differs-add_row :
    (c : OutboxCount) (r : Row) (cs : List OutboxCount)
    → in_group r c ≡ false
    → All (λ d. same_group c d ≡ false) cs
    → All (λ d. same_group c d ≡ false) (add_row r cs)
unfolding add_row
differs-add_row c r [] h a =
    ground (arith, channel_sym c.channel r.channel, state_sym c.state r.state)
differs-add_row c r (d ∷ cs) h a = ground (arith, differs-add_row c r cs h a.1)

add_row-Unique : (r : Row) (cs : List OutboxCount) → Unique cs → Unique (add_row r cs)
unfolding add_row
add_row-Unique r [] u = (tt, tt)
add_row-Unique r (c ∷ cs) u = ground (arith, add_row-Unique r cs u.1, differs-add_row c r cs)

pub group_counts-Unique : (rows : List Row) → Unique (group_counts rows)
unfolding group_counts
group_counts-Unique [] = tt
group_counts-Unique (r ∷ rs) = add_row-Unique r (group_counts rs) (group_counts-Unique rs)

state_in_trans :
    (ss : List OutboxState) (a b : OutboxState)
    → same_state a b ≡ true
    → state_in ss a ≡ state_in ss b
unfolding state_in any
state_in_trans [] a b h = refl
state_in_trans (k ∷ ss) a b h = ground (arith, state_trans a b k h, state_in_trans ss a b h)

of-is_counted :
    (channel : Channel) (state : OutboxState) (r : Row)
    → channel_in channels channel ≡ true
    → state_in states state ≡ true
    → is_of channel state r ≡ true
    → is_counted r ≡ true
unfolding is_counted
of-is_counted channel state r c s h = elim (Bool-cases (str_eq r.channel channel)) [
  | inl e ↦
      rw ((str_eq_iff r.channel channel).0 e, c) ground (arith, state_in_trans states r.state state)
  | inr e ↦ absurd (grind (arith, e, h))
]

abbrev pub live : Row → Bool
live r = not (is_some r.deleted_at)

-- Of the channels and states that Stats asks for, its WHERE clause keeps every live row.
pub number-select_rows :
    (channel : Channel) (state : OutboxState) (s : Store)
    → channel_in channels channel ≡ true
    → state_in states state ≡ true
    → number channel state (select_rows is_counted s) ≡ number channel state (filter live s)
unfolding number select_rows filter
number-select_rows channel state [] c st = refl
number-select_rows channel state (r ∷ s) c st =
    ground (arith, number-select_rows channel state s c st, of-is_counted channel state r c st)
