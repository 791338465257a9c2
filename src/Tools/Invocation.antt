-- ===== src/Tools/Invocation.antt =====
-- evoagent/tools/invocation.py: the states of the invocations that must not be repeated.
use evo_review_agent.Base.{String, Bool, true, false, Option, none, some, if◌then◌else◌}
use evo_review_agent.Base.Key.{text_key}
use evo_review_agent.Base.Dict.{Dict, get, put}
use evo_review_agent.Base.Result.{Result, err, ok}

pub data InvocationState : Type 0 where
  requested authorized running succeeded failed unknown : InvocationState

-- Membership in TERMINAL and in BLOCK_REPLAY.
pub is_terminal : InvocationState → Bool
is_terminal succeeded = true
is_terminal failed = true
is_terminal unknown = true
is_terminal _ = false

unfoldable pub blocks_replay : InvocationState → Bool
blocks_replay failed = true
blocks_replay unknown = true
blocks_replay _ = false

-- The states by key that a ToolInvocationGuard holds.
abbrev pub ToolInvocationGuard : Type 0
ToolInvocationGuard = Dict String InvocationState

-- The exception of `begin`, with the state that it names.
pub data InvocationError : Type 0 where
  unknown_invocation : InvocationState → InvocationError

unfoldable pub begin_found :
    ToolInvocationGuard
    → String
    → Option InvocationState
    → ToolInvocationGuard × Result InvocationError InvocationState
begin_found g key none = (put g key requested, ok requested)
begin_found g key (some current) =
    (g, (if blocks_replay current then err (unknown_invocation current) else ok current))

-- `begin`
unfoldable pub begin :
    ToolInvocationGuard → String → ToolInvocationGuard × Result InvocationError InvocationState
unfolding begin_found
begin g key = begin_found g key (get g key)

-- `transition`, of `authorize`, `running`, `succeed`, `fail` and `mark_unknown`.
unfoldable pub transition : ToolInvocationGuard → String → InvocationState → ToolInvocationGuard
transition g key s = put g key s
