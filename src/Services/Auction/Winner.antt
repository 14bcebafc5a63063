-- ===== src/Services/Auction/Winner.antt =====
-- docs/howto/auction/auction.go: whose bid wins, over all the calls that an auction handles.
use durableroutine_go.Base.{
  ℕ, suc, ◌+◌, ◌≡◌, refl, inl, inr, String, true, false, List, [], ◌∷◌, ◌++◌, append-nil,
  append_assoc, All, All-append, if◌then◌else◌, Bool-cases, arith,
}
use durableroutine_go.Base.Int.{ℤ}
use durableroutine_go.Services.Auction.{
  Amount, AuctionInput, PlaceBidReq, PlaceBidResp, BiddingInput, opened, is_too_low, place, refusal,
  closing,
}

-- `<=` on the amounts that occur: NaN, which JSON cannot carry, is not among them.
pub record IsOrdered (F : Type 0) ⦃a : Amount F⦄ : Type 0 where
  pub le_trans : (x y z : F) → a.le x y ≡ true → a.le y z ≡ true → a.le x z ≡ true
  pub le_total : (x y : F) → a.le x y ≡ false → a.le y x ≡ true

-- A call that the auction takes: it is handled, or its handler has failed and `BidFailed` answers.
pub data Call (F : Type 0) : Type 0 where
  placed : PlaceBidReq F → Call F
  failed : PlaceBidReq F → String → Call F

module _ {F : Type 0} ⦃a : Amount F⦄ where
  abbrev pub bids : List (Call F) → List (PlaceBidReq F)
  bids [] = []
  bids (placed b ∷ calls) = b ∷ bids calls
  bids (failed b e ∷ calls) = bids calls

  unfoldable pub answer : BiddingInput F → Call F → BiddingInput F × PlaceBidResp F
  unfolding place refusal
  answer s (placed b) = place s b
  answer s (failed b e) = (s, refusal e)

  -- The state after the calls, and the responses.
  unfoldable pub answer_all :
      BiddingInput F → List (Call F) → BiddingInput F × List (PlaceBidResp F)
  answer_all s [] = (s, [])
  answer_all s (c ∷ calls) =
      let (s', resp) = answer s c in let (end, resps) = answer_all s' calls in (end, resp ∷ resps)

  abbrev pub accepted_count : List (PlaceBidResp F) → ℕ
  accepted_count [] = 0
  accepted_count (r ∷ rs) = if r.accepted then suc (accepted_count rs) else accepted_count rs

  abbrev pub IsAtMost : F → PlaceBidReq F → Type 0
  IsAtMost x b = a.le b.amount x ≡ true

  abbrev pub IsBelow : F → PlaceBidReq F → Type 0
  IsBelow x b = a.le x b.amount ≡ false

  -- The bidder and the amount that win: with no bid above the start nobody, at the starting bid;
  -- otherwise the first of the largest bids.
  pub data Wins (start : F) (bs : List (PlaceBidReq F)) (bidder : String) (amount : F)
      : Type 0 where
    nobody : bidder ≡ "" → amount ≡ start → All (IsAtMost start) bs → Wins start bs bidder amount
    somebody :
        (before : List (PlaceBidReq F)) (b : PlaceBidReq F) (later : List (PlaceBidReq F))
        → bs ≡ before ++ (b ∷ later)
        → bidder ≡ b.bidder_id
        → amount ≡ b.amount
        → a.le b.amount start ≡ false
        → All (IsBelow b.amount) before
        → All (IsAtMost b.amount) later
        → Wins start bs bidder amount

  module _ (o : IsOrdered F) where
    le_refl : (x : F) → a.le x x ≡ true
    le_refl x = elim (Bool-cases (a.le x x)) [ inl h ↦ h | inr h ↦ o.le_total x x h ]

    All-IsBelow :
        (x y : F) (bs : List (PlaceBidReq F))
        → a.le y x ≡ false
        → All (IsAtMost x) bs
        → All (IsBelow y) bs
    All-IsBelow x y [] h all = tt
    All-IsBelow x y (b ∷ bs) h all =
        (ground (arith, o.le_trans y b.amount x), All-IsBelow x y bs h all.1)

    All-IsAtMost : (x : F) (bs : List (PlaceBidReq F)) → All (IsBelow x) bs → All (IsAtMost x) bs
    All-IsAtMost x [] all = tt
    All-IsAtMost x (b ∷ bs) all = (o.le_total x b.amount all.0, All-IsAtMost x bs all.1)

    -- No bid so far is above the winning amount.
    Wins-IsAtMost :
        {start : F} {bs : List (PlaceBidReq F)} {bidder : String} {amount : F}
        → Wins start bs bidder amount
        → All (IsAtMost amount) bs
    Wins-IsAtMost (nobody p q all) = rw q all
    Wins-IsAtMost (somebody before b later e p q above pre post) =
        rw (e, q)
          (All-append (IsAtMost b.amount) before (b ∷ later) (All-IsAtMost b.amount before pre)
            (le_refl b.amount, post))

    Wins-start_le :
        {start : F} {bs : List (PlaceBidReq F)} {bidder : String} {amount : F}
        → Wins start bs bidder amount
        → a.le start amount ≡ true
    Wins-start_le (nobody p q all) = rw q (le_refl _)
    Wins-start_le (somebody before b later e p q above pre post) = rw q (o.le_total _ _ above)

    -- One more bid, refused or accepted.
    Wins-refused :
        {start : F} {bs : List (PlaceBidReq F)} {bidder : String} {amount : F} (b : PlaceBidReq F)
        → IsAtMost amount b
        → Wins start bs bidder amount
        → Wins start (bs ++ (b ∷ [])) bidder amount
    Wins-refused b h (nobody p q all) =
        nobody p q (All-append (IsAtMost _) _ (b ∷ []) all (rw (← q) h, tt))
    Wins-refused b h (somebody before top later e p q above pre post) =
        somebody before top (later ++ (b ∷ [])) (rw (e, append_assoc)) p q above pre
          (All-append (IsAtMost _) later (b ∷ []) post (rw (← q) h, tt))

    Wins-accepted :
        {start : F} {bs : List (PlaceBidReq F)} {bidder : String} {amount : F} (b : PlaceBidReq F)
        → a.le b.amount amount ≡ false
        → Wins start bs bidder amount
        → Wins start (bs ++ (b ∷ [])) b.bidder_id b.amount
    Wins-accepted {start} {bs} {bidder} {amount} b h w =
        somebody bs b [] refl refl refl
          (ground (arith, o.le_trans b.amount start amount, Wins-start_le w))
          (All-IsBelow amount b.amount bs h (Wins-IsAtMost w)) tt

    Wins-place :
        (start : F) (bs : List (PlaceBidReq F)) (s : BiddingInput F) (b : PlaceBidReq F)
        → Wins start bs s.leader s.highest_bid
        → Wins start (bs ++ (b ∷ [])) (place s b).0.leader (place s b).0.highest_bid
    unfolding place is_too_low
    Wins-place start bs s b w = elim (Bool-cases (a.le b.amount s.highest_bid)) [
      | inl low ↦ rw low (Wins-refused b low w)
      | inr high ↦ rw high (Wins-accepted b high w)
    ]

    Wins-answer_all :
        (start : F) (bs : List (PlaceBidReq F)) (s : BiddingInput F) (calls : List (Call F))
        → Wins start bs s.leader s.highest_bid
        → Wins start
            (bs ++ bids calls)
            (answer_all s calls).0.leader
            (answer_all s calls).0.highest_bid
    unfolding answer_all answer
    Wins-answer_all start bs s [] w = rw (append-nil bs) w
    Wins-answer_all start bs s (failed b e ∷ calls) w = Wins-answer_all start bs s calls w
    Wins-answer_all start bs s (placed b ∷ calls) w =
        rw (← append_assoc bs (b ∷ []) (bids calls))
          (Wins-answer_all start (bs ++ (b ∷ [])) (place s b).0 calls (Wins-place start bs s b w))

  answer-count :
      (s : BiddingInput F) (c : Call F)
      → (answer s c).0.bid_count ≡ s.bid_count + (if (answer s c).1.accepted then 1 else 0)
  unfolding answer place refusal
  answer-count s (placed b) = ground arith
  answer-count s (failed b e) = omega arith

  answer_all-count :
      (s : BiddingInput F) (calls : List (Call F))
      → (answer_all s calls).0.bid_count ≡ s.bid_count + accepted_count (answer_all s calls).1
  unfolding answer_all
  answer_all-count s [] = omega arith
  answer_all-count s (c ∷ calls) =
      ground (arith, answer-count s c, answer_all-count (answer s c).0 calls)

  -- Whatever calls the auction handles before it closes, failed ones among them, its result names
  -- as winner and amount the first of the largest bids that were placed, if that is above the
  -- starting bid, and otherwise nobody and the starting bid. The bid count of the result is the
  -- number of calls that were answered as accepted.
  pub closing-Wins :
      (o : IsOrdered F) (now : ℤ) (input : AuctionInput F) (calls : List (Call F))
      → let end = answer_all (opened now input) calls in
        Wins input.starting_bid (bids calls) (closing end.0).winner (closing end.0).amount
        × ((closing end.0).bid_count ≡ accepted_count end.1)
  unfolding closing opened
  closing-Wins o now input calls = (
    Wins-answer_all o input.starting_bid [] (opened now input) calls (nobody refl refl tt),
    omega (arith, answer_all-count (opened now input) calls),
  )
