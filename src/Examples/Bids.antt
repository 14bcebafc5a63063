-- ===== src/Examples/Bids.antt =====
-- An auction with whole amounts: a bid below the start, a failed one, and two good ones.
use durableroutine_go.Base.{ℕ, ◌≡◌, String, [], ◌∷◌, leb, arith}
use durableroutine_go.Base.Int.{pos}
use durableroutine_go.Services.Auction.{
  Amount, AuctionInput, PlaceBidReq, opened, is_too_low, place, refusal, closing,
}
use durableroutine_go.Services.Auction.Winner.{
  IsOrdered, Call, placed, failed, answer, answer_all, Wins, closing-Wins,
}
use mathlib.Core.List.{List}

instance abbrev whole : Amount ℕ
whole = record { nought = 0; le = leb; two_decimals = λ n. "a whole amount" }

whole-IsOrdered : IsOrdered ℕ
whole-IsOrdered = record { le_trans = λ x y z p q. ground arith; le_total = λ x y p. ground arith }

abbrev input : AuctionInput ℕ
input = record { item_name = "vase"; starting_bid = 10; duration = pos 60 }

abbrev bid : String → ℕ → PlaceBidReq ℕ
bid who n = record { bidder_id = who; amount = n }

abbrev calls : List (Call ℕ)
calls =
    placed (bid "ann" 9)
    ∷ placed (bid "bob" 15)
    ∷ failed (bid "cid" 99) "down"
    ∷ placed (bid "dan" 15)
    ∷ []

closing-Wins_example :
    Wins 10 (bid "ann" 9 ∷ bid "bob" 15 ∷ bid "dan" 15 ∷ []) "bob" 15 × (◌≡◌ {A = ℕ} 1 1)
unfolding closing opened answer_all answer place refusal is_too_low
closing-Wins_example = closing-Wins whole-IsOrdered (pos 0) input calls
