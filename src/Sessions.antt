-- ===== src/Sessions.antt =====
-- pkg/controller/sessions.go, `sessionTable`: it pairs an expected session id with the agent stream
-- that arrives for it. A step is what one goroutine does under `mu`, or one channel operation.
pub mod Pairing
use hostlink.Prelude.{
  ℕ, suc, Bool, true, false, Option, none, some, List, [], ◌∷◌, if◌then◌else◌, ◌==◌, Text,
  nat_comparable, text_comparable,
}
use hostlink.Map.{Map, get, put, delete}

-- `forwardSession`, with the session id of its Forward RPC and a name for its stream.
pub record ForwardSession : Type 0 where
  pub session_id : Text
  pub stream : ℕ

-- A waiter's `chan *forwardSession` of capacity one: the session id that it was made for, the
-- session that was put on it, and whether the consumer has taken it.
pub record WaiterChan : Type 0 where
  pub session_id : Text
  pub sent : Option ForwardSession
  pub taken : Bool

-- The table with the heap of its channels, and the deliveries that have left `mu` and have not yet
-- made their send, by channel.
pub record SessionTable : Type 0 where
  pub waiters : Map Text ℕ
  pub chans : Map ℕ WaiterChan
  pub made : ℕ
  pub flying : Map ℕ ForwardSession

unfoldable pub new_session_table : SessionTable
new_session_table = record { waiters = []; chans = []; made = 0; flying = [] }

-- `expect`: the channel that it returns is the number of channels made before.
unfoldable pub expect : Text → SessionTable → SessionTable × ℕ
expect session_id t = (
  record t {
    waiters = put t.waiters session_id t.made;
    chans = put t.chans t.made (record { session_id = session_id; sent = none; taken = false });
    made = suc t.made;
  },
  t.made,
)

abbrev pub points_to : Option ℕ → ℕ → Bool
points_to none ch = false
points_to (some c) ch = c == ch

-- The cancel function that `expect` returns; running it again changes nothing.
unfoldable pub cancel : Text → ℕ → SessionTable → SessionTable
cancel session_id ch t =
    if points_to (get t.waiters session_id) ch
    then record t { waiters = delete t.waiters session_id }
    else t

-- `deliver` up to its unlock; the Boolean is `ok`.
unfoldable pub deliver : ForwardSession → SessionTable → SessionTable × Bool
deliver s t = elim (get t.waiters s.session_id) [
  | none ↦ (t, false)
  | some ch ↦
      (record t { waiters = delete t.waiters s.session_id; flying = put t.flying ch s }, true)
]

-- Whether `waiter <- session` can be made at once.
abbrev pub has_room : WaiterChan → Bool
has_room c = elim c.sent [ none ↦ true | some _ ↦ c.taken ]

send_on : ℕ → ForwardSession → Option WaiterChan → SessionTable → SessionTable × Bool
send_on ch s none t = (t, false)
send_on ch s (some c) t =
    if has_room c
    then (
      record t {
        chans = put t.chans ch (record c { sent = some s; taken = false });
        flying = delete t.flying ch;
      },
      true,
    )
    else (record t { flying = delete t.flying ch }, false)

-- The `select` of `deliver` for the delivery to this channel; the Boolean is what `deliver` returns.
unfoldable pub finish : ℕ → ForwardSession → SessionTable → SessionTable × Bool
unfolding send_on
finish ch s t = send_on ch s (get t.chans ch) t

-- The consumer receives from its channel.
unfoldable pub take : ℕ → WaiterChan → SessionTable → SessionTable
take ch c t = record t { chans = put t.chans ch (record c { taken = true }) }
