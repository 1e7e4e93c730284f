-- ===== src/Gate.antt =====
-- internal/supervisor/node.go: the gate of a node's RPC calls, which QuiesceRPC closes. A channel is
-- named by a number; `closings` are the channels that were closed.
pub mod Quiet
mod Tests
use kanedias.Base.{
  ℕ, suc, zero, ◌+◌, ◌-◌, Bool, true, false, not, ◌&&◌, ◌||◌, ◌==◌, List, [], ◌∷◌, Option, none,
  some, Result, ok, err, if◌then◌else◌,
}
use kanedias.Contract.{Error, session_stopping}

pub record RpcAdmissionGate : Type 0 where
  pub closed : Bool
  pub active : ℕ
  pub idle : Option ℕ
  pub next : ℕ
  pub closings : List ℕ

unfoldable pub new_gate : RpcAdmissionGate
new_gate = record { closed = false; active = 0; idle = none; next = 0; closings = [] }

unfoldable pub admit : RpcAdmissionGate → RpcAdmissionGate × Result Error (Unit {0})
admit g =
    let opens = not g.closed && (g.active == 0) in
    (
      record g {
        active = if g.closed then g.active else suc g.active;
        idle = if opens then some g.next else g.idle;
        next = if opens then suc g.next else g.next;
      },
      (if g.closed
          then err (record {
            code = session_stopping;
            message = "root session is not accepting new RPC calls";
          })
          else ok tt),
    )

-- close(gate.idle), if it is not nil.
abbrev pub close_idle : Option ℕ → List ℕ → List ℕ
close_idle none closings = closings
close_idle (some k) closings = k ∷ closings

-- Only a call that was admitted is released, so that `active` is not 0 before.
unfoldable pub release : RpcAdmissionGate → RpcAdmissionGate
release g =
    let last = g.active - 1 == 0 in
    record g {
      active = g.active - 1;
      idle = if last then none else g.idle;
      closings = if last then close_idle g.idle g.closings else g.closings;
    }

-- What QuiesceRPC does after its critical section: it returns, or waits for a channel or the end of
-- its context. A receive from a nil channel blocks.
pub data Quiescing : Type 0 where
  returns : Quiescing
  waits : Option ℕ → Quiescing

unfoldable pub quiesce_rpc : RpcAdmissionGate → RpcAdmissionGate × Quiescing
quiesce_rpc g = (record g { closed = true }, (if g.active == 0 then returns else waits g.idle))

abbrev pub is_closed : ℕ → List ℕ → Bool
is_closed k [] = false
is_closed k (j ∷ closings) = j == k || is_closed k closings

-- Whether QuiesceRPC returns without its context, in a state of the gate.
abbrev pub is_quiet : Quiescing → RpcAdmissionGate → Bool
is_quiet returns g = true
is_quiet (waits none) g = false
is_quiet (waits (some k)) g = is_closed k g.closings
