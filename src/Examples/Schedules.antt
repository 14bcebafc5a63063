-- ===== src/Examples/Schedules.antt =====
-- The states along a schedule of the in-memory runtime, computed.
use durableroutine_go.Base.{String, false, Option, none, some, List, []}
use durableroutine_go.Base.Int.{ℤ}
use durableroutine_go.Base.Dict.{get}
use durableroutine_go.Base.Result.{Result, ok, err}
use durableroutine_go.Durable.Continuation.{Case}
use durableroutine_go.InMemory.Runtime.{Instance, Runtime, Thread, TimerInfo, polling, blocked}
use durableroutine_go.InMemory.Poll.{poll}
use durableroutine_go.InMemory.Machine.{after_receive}

-- The state that a step led to, or else the one before.
abbrev pub from : Runtime → Option Runtime → Runtime
from before (some r) = r
from before none = before

abbrev pub from_result : Runtime → Result Runtime → Runtime
from_result before (ok r) = r
from_result before (err e) = before

abbrev cases_of : Option Thread → List Case
cases_of (some (polling cases timers)) = cases
cases_of _ = []

abbrev timers_at : Option Thread → List TimerInfo
timers_at (some (polling cases timers)) = timers
timers_at _ = []

abbrev inst_of : Option Instance → Instance
inst_of (some i) = i
inst_of none = record {
  id = "";
  send_ch = [];
  call_chan = [];
  done = false;
  query_results = [];
  buffered = [];
  result = none;
  err = none;
}

-- The goroutine of the routine polls.
abbrev pub polled : String → ℤ → Runtime → Runtime
polled id now r =
    let cases = cases_of (get id r.threads) in
    let timers = timers_at (get id r.threads) in
    after_receive id cases (blocked cases timers)
      (poll now (inst_of (get id r.instances)) cases timers) r
