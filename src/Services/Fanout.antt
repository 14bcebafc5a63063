-- ===== src/Services/Fanout.antt =====
-- docs/howto/fanout/fanout.go: a routine that starts a child for each item and collects what the
-- children send back. A handler's printing is left out.
pub mod Collect
use durableroutine_go.Base.{
  suc, String, ◌<>◌, Bool, Option, none, some, List, [], ◌∷◌, ◌++◌, map, length, if◌then◌else◌,
}
use durableroutine_go.Base.Int.{ℤ, pos, ◌-ℤ◌, is_positive}
use durableroutine_go.Base.Result.{Result, ok, err, ◌>>=◌}
use durableroutine_go.Durable.Payload.{Payload}
use durableroutine_go.Durable.Continuation.{
  Continuation, NoResult, no_result, done_with, receive_send,
}
use durableroutine_go.Durable.Context.{Context, buffer_start, buffer_send}
use durableroutine_go.Durable.Worker.{Worker, default_options}
use durableroutine_go.Durable.Registration.{register_handler, register_send_handler}
use durableroutine_go.Services.Encoding.{Encoding, of_kind, unit_payload}

pub record ItemInput : Type 0 where
  pub id : String
  pub item_data : String
  pub parent_id : String

pub record ItemResult : Type 0 where
  pub id : String
  pub output : String

-- an element of `FanoutInput.Items`
pub record FanoutItem : Type 0 where
  pub id : String
  pub item_data : String

pub record FanoutInput : Type 0 where
  pub items : List FanoutItem

pub record FanoutResult : Type 0 where
  pub results : List ItemResult

pub record CollectingInput : Type 0 where
  pub pending : ℤ
  pub results : List ItemResult

-- `DurableKind` of each type
instance abbrev pub item_input_payload : ⦃e : Encoding ItemInput⦄ → Payload ItemInput
item_input_payload = of_kind "process-item" (record { id = ""; item_data = ""; parent_id = "" })

instance abbrev pub item_result_payload : ⦃e : Encoding ItemResult⦄ → Payload ItemResult
item_result_payload = of_kind "results" (record { id = ""; output = "" })

instance abbrev pub fanout_input_payload : ⦃e : Encoding FanoutInput⦄ → Payload FanoutInput
fanout_input_payload = of_kind "fanout" (record { items = [] })

instance abbrev pub fanout_result_payload : ⦃e : Encoding FanoutResult⦄ → Payload FanoutResult
fanout_result_payload = of_kind "fanout-result" (record { results = [] })

instance abbrev pub collecting_payload : ⦃e : Encoding CollectingInput⦄ → Payload CollectingInput
collecting_payload = of_kind "fanout.collecting" (record { pending = pos 0; results = [] })

-- the input of an item's child, in the loop of `StartItems`
unfoldable pub item_input : String → FanoutItem → ItemInput
item_input parent item = record { id = item.id; item_data = item.item_data; parent_id = parent }

-- the first state of the collection, of `StartItems`
unfoldable pub collecting : FanoutInput → CollectingInput
collecting input = record { pending = pos (length input.items); results = [] }

-- the result that `ProcessItem` sends
unfoldable pub item_result : ItemInput → ItemResult
item_result input = record { id = input.id; output = "processed: " <> input.item_data }

-- `CollectResult`: the next state, and the test whether it waits for more
unfoldable pub collected : CollectingInput → ItemResult → CollectingInput
collected input r = record { pending = input.pending -ℤ pos 1; results = input.results ++ (r ∷ []) }

unfoldable pub waits_for_more : CollectingInput → Bool
waits_for_more input = is_positive input.pending

module _ ⦃item : Encoding ItemInput⦄ ⦃result : Encoding ItemResult⦄ ⦃fanout : Encoding FanoutInput⦄
    ⦃fanout_result : Encoding FanoutResult⦄ ⦃state : Encoding CollectingInput⦄
    ⦃no_res : Encoding NoResult⦄ where
  -- the loop of `StartItems`
  unfoldable pub start_all : Context → List ItemInput → Context
  start_all ctx [] = ctx
  start_all ctx (i ∷ is) = start_all (buffer_start NoResult ctx ("item-" <> i.id) i) is

  -- `StartItems`
  unfoldable pub start_items :
      Context → FanoutInput → Context × Option (Continuation FanoutResult) × Option String
  unfolding start_all item_input collecting
  start_items ctx input = (
    start_all ctx (map (item_input ctx.routine_id) input.items),
    some (receive_send ItemResult (collecting input)),
    none,
  )

  -- `CollectResult`
  unfoldable pub collect_result :
      Context
      → CollectingInput
      → ItemResult
      → Context × Option (Continuation FanoutResult) × Option String
  unfolding collected waits_for_more
  collect_result ctx input external_input =
      let next = collected input external_input in
      if waits_for_more next
      then (ctx, some (receive_send ItemResult next), none)
      else (ctx, some (done_with (record { results = next.results })), none)

  -- `ProcessItem`
  unfoldable pub process_item :
      Context → ItemInput → Context × Option (Continuation NoResult) × Option String
  unfolding item_result
  process_item ctx input = (
    buffer_send CollectingInput FanoutResult ctx input.parent_id (item_result input),
    some (done_with no_result),
    none,
  )

  -- `RegisterHandlers`; a panic of a registration is an error
  unfoldable pub register_handlers : Worker → Result Worker
  register_handlers w = do
    (w₁, _) ← register_handler w start_items default_options
    (w₂, _) ← register_handler w₁ process_item default_options
    (w₃, _) ← register_send_handler w₂ collect_result default_options
    ok w₃
