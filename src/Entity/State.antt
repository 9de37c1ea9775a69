-- ===== src/Entity/State.antt =====
-- The delivery states of server/internal/entity/outbox.go. `other n` is any integer that the source
-- gives no name, among them the zero value.
use kaftar.Prelude.{String, Bool, true, false, ℤ, pos, negsuc, ◌==◌, if◌then◌else◌}

pub data OutboxState : Type 0 where
  pending sending failed sent dead : OutboxState
  other : ℤ → OutboxState

-- int(state)
unfoldable pub to_int : OutboxState → ℤ
to_int pending = pos 1
to_int sending = pos 2
to_int failed = pos 3
to_int sent = pos 4
to_int dead = pos 5
to_int (other n) = n

-- OutboxState(n)
unfoldable pub of_int : ℤ → OutboxState
of_int (negsuc n) = other (negsuc n)
of_int (pos n) =
    if n == 1
    then pending
    else if n == 2
    then sending
    else if n == 3
    then failed
    else if n == 4
    then sent
    else if n == 5
    then dead
    else other (pos n)

abbrev pub is_pending : OutboxState → Bool
is_pending pending = true
is_pending _ = false

abbrev pub is_sending : OutboxState → Bool
is_sending sending = true
is_sending _ = false

abbrev pub is_failed : OutboxState → Bool
is_failed failed = true
is_failed _ = false

abbrev pub is_sent : OutboxState → Bool
is_sent sent = true
is_sent _ = false

abbrev pub is_dead : OutboxState → Bool
is_dead dead = true
is_dead _ = false

-- outboxStatusMap has an entry for each named state.
unfoldable pub is_valid : OutboxState → Bool
is_valid (other n) = false
is_valid _ = true

unfoldable pub to_string : OutboxState → String
to_string pending = "pending"
to_string sending = "sending"
to_string failed = "failed"
to_string sent = "sent"
to_string dead = "dead"
to_string (other n) = ""
