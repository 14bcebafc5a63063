-- ===== src/Services/Auction.antt =====
-- docs/howto/auction/auction.go: an auction whose bids are calls, up to a deadline. A handler's
-- printing is left out. The amounts are float64: their type, its zero, `<=` and the format `%.2f`
-- are parameters. A handler takes the instants at which it reads the clock.
pub mod Winner
use durableroutine_go.Base.{
  ℕ, ◌+◌, String, ◌<>◌, Bool, true, false, Option, none, some, List, [], ◌∷◌, if◌then◌else◌,
}
use durableroutine_go.Base.Int.{ℤ, pos, ◌+ℤ◌, ◌-ℤ◌}
use durableroutine_go.Durable.Payload.{Payload}
use durableroutine_go.Durable.Continuation.{Continuation, done_with, after, receive_call, select}
use durableroutine_go.Durable.Context.{Context, set_query_result}
use durableroutine_go.Base.Result.{Result, ok, err, ◌>>=◌}
use durableroutine_go.Durable.Worker.{Worker, default_options}
use durableroutine_go.Durable.Registration.{
  register_handler, register_call_handler, with_call_recovery_handler,
}
use durableroutine_go.Services.Encoding.{Encoding, of_kind, attempts}

-- What the code does with a float64.
pub record Amount (F : Type 0) : Type 0 where
  pub nought : F
  pub le : F → F → Bool
  pub two_decimals : F → String

pub record AuctionInput (F : Type 0) : Type 0 where
  pub item_name : String
  pub starting_bid : F
  pub duration : ℤ

pub record PlaceBidReq (F : Type 0) : Type 0 where
  pub bidder_id : String
  pub amount : F

pub record PlaceBidResp (F : Type 0) : Type 0 where
  pub accepted : Bool
  pub highest_bid : F
  pub message : String

pub record AuctionStatusResp (F : Type 0) : Type 0 where
  pub item_name : String
  pub highest_bid : F
  pub leader : String
  pub bid_count : ℕ

pub record AuctionResult (F : Type 0) : Type 0 where
  pub item_name : String
  pub winner : String
  pub amount : F
  pub bid_count : ℕ

-- The count starts at 0 and grows by one for each accepted bid.
pub record BiddingInput (F : Type 0) : Type 0 where
  pub item_name : String
  pub deadline : ℤ
  pub highest_bid : F
  pub leader : String
  pub bid_count : ℕ

module _ {F : Type 0} ⦃a : Amount F⦄ where
  -- `DurableKind` of each type
  instance abbrev pub auction_input_payload :
      ⦃e : Encoding (AuctionInput F)⦄ → Payload (AuctionInput F)
  auction_input_payload =
      of_kind "auction" (record { item_name = ""; starting_bid = a.nought; duration = pos 0 })

  instance abbrev pub place_bid_payload : ⦃e : Encoding (PlaceBidReq F)⦄ → Payload (PlaceBidReq F)
  place_bid_payload = of_kind "place-bid" (record { bidder_id = ""; amount = a.nought })

  instance abbrev pub place_bid_resp_payload :
      ⦃e : Encoding (PlaceBidResp F)⦄ → Payload (PlaceBidResp F)
  place_bid_resp_payload =
      of_kind "place-bid-resp" (record { accepted = false; highest_bid = a.nought; message = "" })

  instance abbrev pub auction_status_payload :
      ⦃e : Encoding (AuctionStatusResp F)⦄ → Payload (AuctionStatusResp F)
  auction_status_payload =
      of_kind "auction-status"
        (record { item_name = ""; highest_bid = a.nought; leader = ""; bid_count = 0 })

  instance abbrev pub auction_result_payload :
      ⦃e : Encoding (AuctionResult F)⦄ → Payload (AuctionResult F)
  auction_result_payload =
      of_kind "auction-result"
        (record { item_name = ""; winner = ""; amount = a.nought; bid_count = 0 })

  instance abbrev pub bidding_payload : ⦃e : Encoding (BiddingInput F)⦄ → Payload (BiddingInput F)
  bidding_payload = of_kind "auction.bidding" (record {
    item_name = "";
    deadline = pos 0;
    highest_bid = a.nought;
    leader = "";
    bid_count = 0;
  })

  -- `OpenAuction`: the first state
  unfoldable pub opened : ℤ → AuctionInput F → BiddingInput F
  opened now input = record {
    item_name = input.item_name;
    deadline = now +ℤ input.duration;
    highest_bid = input.starting_bid;
    leader = "";
    bid_count = 0;
  }

  -- `PlaceBid`: the test, and the state and the response on both branches
  unfoldable pub is_too_low : BiddingInput F → PlaceBidReq F → Bool
  is_too_low input req = a.le req.amount input.highest_bid

  unfoldable pub place : BiddingInput F → PlaceBidReq F → BiddingInput F × PlaceBidResp F
  unfolding is_too_low
  place input req =
      if is_too_low input req
      then (
        input,
        record {
          accepted = false;
          highest_bid = input.highest_bid;
          message = "bid too low, current highest is $" <> a.two_decimals input.highest_bid;
        },
      )
      else (
        record input {
          highest_bid = req.amount;
          leader = req.bidder_id;
          bid_count = input.bid_count + 1;
        },
        record {
          accepted = true;
          highest_bid = req.amount;
          message = "bid accepted, you are the highest bidder";
        },
      )

  -- `BidFailed`: the response
  unfoldable pub refusal : String → PlaceBidResp F
  refusal e = record {
    accepted = false;
    highest_bid = a.nought;
    message = "bid processing failed: " <> e;
  }

  -- `CloseAuction`: the result
  unfoldable pub closing : BiddingInput F → AuctionResult F
  closing input = record {
    item_name = input.item_name;
    winner = input.leader;
    amount = input.highest_bid;
    bid_count = input.bid_count;
  }

  -- the argument of `SetQueryResult`
  unfoldable pub status : BiddingInput F → AuctionStatusResp F
  status s = record {
    item_name = s.item_name;
    highest_bid = s.highest_bid;
    leader = s.leader;
    bid_count = s.bid_count;
  }

  module _ ⦃input : Encoding (AuctionInput F)⦄ ⦃req : Encoding (PlaceBidReq F)⦄
      ⦃resp : Encoding (PlaceBidResp F)⦄ ⦃status_resp : Encoding (AuctionStatusResp F)⦄
      ⦃result : Encoding (AuctionResult F)⦄ ⦃bidding : Encoding (BiddingInput F)⦄ where
    -- what every handler but `CloseAuction` returns, at the instant that `time.Until` reads
    unfoldable pub bidding_select : ℤ → BiddingInput F → Continuation (AuctionResult F)
    bidding_select now s =
        select (receive_call (PlaceBidReq F) (PlaceBidResp F) s ∷ after (s.deadline -ℤ now) s ∷ [])

    -- `OpenAuction`
    unfoldable pub open_auction :
        ℤ
        → ℤ
        → Context
        → AuctionInput F
        → Context × Option (Continuation (AuctionResult F)) × Option String
    unfolding opened status bidding_select
    open_auction now later ctx input =
        let s = opened now input in
        (set_query_result ctx (status s), some (bidding_select later s), none)

    -- `PlaceBid`
    unfoldable pub place_bid :
        ℤ
        → Context
        → BiddingInput F
        → PlaceBidReq F
        → Context × PlaceBidResp F × Option (Continuation (AuctionResult F)) × Option String
    unfolding place is_too_low status bidding_select
    place_bid now ctx input req =
        let (s, resp) = place input req in
        (
          if is_too_low input req then ctx else set_query_result ctx (status s),
          resp,
          some (bidding_select now s),
          none,
        )

    -- `BidFailed`
    unfoldable pub bid_failed :
        ℤ
        → Context
        → BiddingInput F
        → PlaceBidReq F
        → String
        → Context × PlaceBidResp F × Option (Continuation (AuctionResult F)) × Option String
    unfolding refusal bidding_select
    bid_failed now ctx input req e = (ctx, refusal e, some (bidding_select now input), none)

    -- `CloseAuction`
    unfoldable pub close_auction :
        Context → BiddingInput F → Context × Option (Continuation (AuctionResult F)) × Option String
    unfolding closing
    close_auction ctx input = (ctx, some (done_with (closing input)), none)

module _ (F : Type 0) ⦃a : Amount F⦄ ⦃input : Encoding (AuctionInput F)⦄
    ⦃req : Encoding (PlaceBidReq F)⦄ ⦃resp : Encoding (PlaceBidResp F)⦄
    ⦃status_resp : Encoding (AuctionStatusResp F)⦄ ⦃result : Encoding (AuctionResult F)⦄
    ⦃bidding : Encoding (BiddingInput F)⦄ where
  -- `RegisterHandlers`, as the handlers run when the clock shows the given instants; a panic of a
  -- registration is an error
  unfoldable pub register_handlers : Worker → ℤ → ℤ → Result Worker
  register_handlers w now later = do
    (w₁, _) ← register_handler w (open_auction {F = F} now later) default_options
    (w₂, r₂) ← register_call_handler w₁ (place_bid {F = F} now) (attempts (pos 3))
    let w₃ = with_call_recovery_handler w₂ r₂ (bid_failed {F = F} now) default_options
    (w₄, _) ← register_handler w₃ (close_auction {F = F}) default_options
    ok w₄
