-- ===== src/Durable/Client/Uuid.antt =====
-- durable/client.go: `newUUID`. The random bytes are a parameter.
use Prim.Native.Nat.{bit_and, bit_or}
use durableroutine_go.Base.{
  ℕ, zero, suc, ◌-◌, ◌/◌, ◌%◌, ◌≡◌, refl, String, ◌<>◌, none, some, List, [], ◌∷◌, take, drop,
  get_elem?,
}

abbrev digits : List String
digits =
    "0" ∷ "1" ∷ "2" ∷ "3" ∷ "4" ∷ "5" ∷ "6" ∷ "7" ∷ "8" ∷ "9" ∷ "a" ∷ "b" ∷ "c" ∷ "d" ∷ "e" ∷ "f"
    ∷ []

unfoldable pub hex_digit : ℕ → String
hex_digit d = elim (get_elem? digits d) [ none ↦ "" | some s ↦ s ]

-- `%x` of bytes
unfoldable pub hex : List ℕ → String
unfolding hex_digit
hex [] = ""
hex (b ∷ bs) = hex_digit (b / 16) <> hex_digit (b % 16) <> hex bs

-- b[6] and b[8], with the version and the variant
unfoldable pub versioned : ℕ → ℕ
versioned b = bit_or (bit_and b 0x0f) 0x40

unfoldable pub with_variant : ℕ → ℕ
with_variant b = bit_or (bit_and b 0x3f) 0x80

abbrev change : ℕ → (ℕ → ℕ) → List ℕ → List ℕ
change i f [] = []
change zero f (b ∷ bs) = f b ∷ bs
change (suc i) f (b ∷ bs) = b ∷ change i f bs

-- `newUUID`, for the 16 bytes that `rand.Read` gives
unfoldable pub new_uuid : List ℕ → String
unfolding hex versioned with_variant
new_uuid random =
    let b = change 8 with_variant (change 6 versioned random) in
    let part = λ (low high : ℕ). hex (take (high - low) (drop low b)) in
    part 0 4 <> "-" <> part 4 6 <> "-" <> part 6 8 <> "-" <> part 8 10 <> "-" <> part 10 16

new_uuid_test :
    new_uuid (0 ∷ 1 ∷ 2 ∷ 3 ∷ 4 ∷ 5 ∷ 255 ∷ 7 ∷ 8 ∷ 9 ∷ 10 ∷ 11 ∷ 12 ∷ 13 ∷ 14 ∷ 15 ∷ [])
    ≡ "00010203-0405-4f07-8809-0a0b0c0d0e0f"
unfolding new_uuid
new_uuid_test = refl
