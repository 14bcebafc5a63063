-- ===== src/Services/Reminder.antt =====
-- docs/howto/reminder/reminder.go: three mails with delays between them. The mails are prints, and
-- left out.
use durableroutine_go.Base.{ℕ, ◌*◌, String, Option, none, some, if◌then◌else◌}
use durableroutine_go.Base.Int.{ℤ, pos, is_positive}
use durableroutine_go.Base.Result.{Result, ok, ◌>>=◌}
use durableroutine_go.Durable.Payload.{Payload}
use durableroutine_go.Durable.Continuation.{Continuation, NoResult, no_result, done_with, after}
use durableroutine_go.Durable.Context.{Context}
use durableroutine_go.Durable.Worker.{Worker, default_options}
use durableroutine_go.Durable.Registration.{register_handler}
use durableroutine_go.Services.Encoding.{Encoding, of_kind, unit_payload}

pub record InitialInput : Type 0 where
  pub email : String

pub record FollowUpInput : Type 0 where
  pub email : String

pub record FinalInput : Type 0 where
  pub email : String

-- `DurableKind` of each type
instance abbrev pub initial_payload : ⦃e : Encoding InitialInput⦄ → Payload InitialInput
initial_payload = of_kind "reminder.initial" (record { email = "" })

instance abbrev pub follow_up_payload : ⦃e : Encoding FollowUpInput⦄ → Payload FollowUpInput
follow_up_payload = of_kind "reminder.follow-up" (record { email = "" })

instance abbrev pub final_payload : ⦃e : Encoding FinalInput⦄ → Payload FinalInput
final_payload = of_kind "reminder.final" (record { email = "" })

-- `ReminderService`; delays in nanoseconds
pub record ReminderService : Type 0 where
  pub initial_delay : ℤ
  pub follow_up_delay : ℤ

abbrev hours : ℕ → ℤ
hours n = pos (n * 3_600_000_000_000)

-- the delay in `SendInitial`, and that in `SendFollowUp`
unfoldable pub first_delay : ReminderService → ℤ
first_delay s = if is_positive s.initial_delay then s.initial_delay else hours 24

unfoldable pub second_delay : ReminderService → ℤ
second_delay s = if is_positive s.follow_up_delay then s.follow_up_delay else hours 168

module _ ⦃initial : Encoding InitialInput⦄ ⦃follow_up : Encoding FollowUpInput⦄
    ⦃last : Encoding FinalInput⦄ ⦃no_res : Encoding NoResult⦄ where
  -- `SendInitial`
  unfoldable pub send_initial :
      ReminderService
      → Context
      → InitialInput
      → Context × Option (Continuation NoResult) × Option String
  unfolding first_delay
  send_initial s ctx input =
      let next : FollowUpInput = record { email = input.email } in
      (ctx, some (after (first_delay s) next), none)

  -- `SendFollowUp`
  unfoldable pub send_follow_up :
      ReminderService
      → Context
      → FollowUpInput
      → Context × Option (Continuation NoResult) × Option String
  unfolding second_delay
  send_follow_up s ctx input =
      let next : FinalInput = record { email = input.email } in
      (ctx, some (after (second_delay s) next), none)

  -- `SendFinal`
  unfoldable pub send_final :
      Context → FinalInput → Context × Option (Continuation NoResult) × Option String
  send_final ctx input = (ctx, some (done_with no_result), none)

  -- `RegisterHandlers`; a panic of a registration is an error
  unfoldable pub register_handlers : Worker → ReminderService → Result Worker
  register_handlers w s = do
    (w₁, _) ← register_handler w (send_initial s) default_options
    (w₂, _) ← register_handler w₁ (send_follow_up s) default_options
    (w₃, _) ← register_handler w₂ send_final default_options
    ok w₃
