-- ===== src/InMemory/Wait/Search.antt =====
-- What the loops of `waitForCase` over the cases and the timers find.
use durableroutine_go.Base.{
  ℕ, zero, suc, ◌+◌, ◌==◌, ◌≡◌, refl, inl, inr, Bool, true, false, not, none, some, List, [], ◌∷◌,
  get_elem?, All, arith, Bool-cases, List-cases, List-cases,
}
use durableroutine_go.Base.Dict.{Dict, put}
use durableroutine_go.Durable.Payload.{Any}
use durableroutine_go.Durable.Continuation.{Case}
use durableroutine_go.InMemory.Wait.{first_case, take_buffered, buffered_for}

-- A case at an index, with a property.
abbrev pub CaseAt : List Case → ℕ → (Case → Type 0) → Type 0
CaseAt cases i P = (c : Case) × (get_elem? cases i ≡ some c) × P c

-- `CaseAt` for an index that is counted from `k`.
abbrev pub At : ℕ → List Case → ℕ → (Case → Type 0) → Type 0
At k cases i P = (j : ℕ) × (i ≡ k + j) × CaseAt cases j P

pub At-next :
    {P : Case → Type 0} (k : ℕ) (c : Case) (cs : List Case) {i : ℕ}
    → At (suc k) cs i P
    → At k (c ∷ cs) i P
At-next k c cs (j, e, at) = (suc j, omega arith, at)

pub At-zero : {P : Case → Type 0} (cs : List Case) (i : ℕ) → At zero cs i P → CaseAt cs i P
At-zero cs i (j, e, at) = let same : i ≡ j = omega arith in rw same at

first_case-At :
    (p : Case → Bool) (k : ℕ) (cs : List Case) (i : ℕ)
    → first_case p k cs ≡ some i
    → At k cs i (λ c. p c ≡ true)
unfolding first_case
first_case-At p k [] i h = cc
first_case-At p k (c ∷ cs) i h = elim (Bool-cases (p c)) [
  | inl e ↦ (0, ground arith, (c, refl, e))
  | inr e ↦ At-next k c cs (first_case-At p (suc k) cs i (ground arith))
]

-- The case that a search finds stands at its index and passes the test.
pub first_case-CaseAt :
    (p : Case → Bool) (cs : List Case) (i : ℕ)
    → first_case p zero cs ≡ some i
    → CaseAt cs i (λ c. p c ≡ true)
first_case-CaseAt p cs i h = At-zero cs i (first_case-At p zero cs i h)

-- A search that finds nothing has seen no case that passes.
pub first_case-none :
    (p : Case → Bool) (k : ℕ) (cs : List Case)
    → first_case p k cs ≡ none
    → All (λ c. p c ≡ false) cs
unfolding first_case
first_case-none p k [] h = tt
first_case-none p k (c ∷ cs) h = elim (Bool-cases (p c)) [
  | inl e ↦ ground arith
  | inr e ↦ (e, first_case-none p (suc k) cs (ground arith))
]

-- A send case, as the code tells one.
abbrev pub is_send : Case → Bool
is_send c = not (c.send_name == "")

-- No send case has a buffered message.
abbrev pub NoBuffered : List Case → Dict (List Any) → Type 0
NoBuffered cases b = All (λ c. is_send c ≡ true → buffered_for c.handler_key b ≡ []) cases

-- What `take_buffered` took: the first message of a send case's key.
pub record Taken (cases : List Case) (b : Dict (List Any)) (i : ℕ) (m : Any) (b' : Dict (List Any))
    : Type 0 where
  pub case : Case
  pub at : get_elem? cases i ≡ some case
  pub sends : is_send case ≡ true
  pub rest : List Any
  pub was : buffered_for case.handler_key b ≡ m ∷ rest
  pub now : b' ≡ put case.handler_key rest b

-- The head of the list is taken from, or the index is counted in the tail.
take_buffered-Taken_from :
    (k : ℕ) (cs : List Case) (b : Dict (List Any)) (i : ℕ) (m : Any) (b' : Dict (List Any))
    → take_buffered k cs b ≡ some (i, m, b')
    → (j : ℕ) × (i ≡ k + j) × Taken cs b j m b'
unfolding take_buffered
take_buffered-Taken_from k [] b i m b' h = cc
take_buffered-Taken_from k (c ∷ cs) b i m b' h = elim (Bool-cases (c.send_name == "")) [
  | inl e ↦
      let (j, p, t) = take_buffered-Taken_from (suc k) cs b i m b' (ground arith) in
      (
        suc j,
        omega arith,
        record {
          case = t.case;
          at = t.at;
          sends = t.sends;
          rest = t.rest;
          was = t.was;
          now = t.now;
        },
      )
  | inr e ↦ elim (List-cases (buffered_for c.handler_key b)) [
    | inl none_left ↦
        let (j, p, t) = take_buffered-Taken_from (suc k) cs b i m b' (ground arith) in
        (
          suc j,
          omega arith,
          record {
            case = t.case;
            at = t.at;
            sends = t.sends;
            rest = t.rest;
            was = t.was;
            now = t.now;
          },
        )
    | inr (x, xs, e') ↦ (
      0,
      ground arith,
      record {
        case = c;
        at = refl;
        sends = ground arith;
        rest = xs;
        was = ground arith;
        now = ground arith;
      },
    )
  ]
]

pub take_buffered-none :
    (k : ℕ) (cs : List Case) (b : Dict (List Any)) → take_buffered k cs b ≡ none → NoBuffered cs b
unfolding take_buffered
take_buffered-none k [] b h = tt
take_buffered-none k (c ∷ cs) b h = elim (Bool-cases (c.send_name == "")) [
  | inl e ↦ (λ sends. ground arith, take_buffered-none (suc k) cs b (ground arith))
  | inr e ↦ elim (List-cases (buffered_for c.handler_key b)) [
    | inl none_left ↦ (λ _. none_left, take_buffered-none (suc k) cs b (ground arith))
    | inr (x, xs, e') ↦ ground arith
  ]
]

pub take_buffered-Taken :
    (cs : List Case) (b : Dict (List Any)) (i : ℕ) (m : Any) (b' : Dict (List Any))
    → take_buffered zero cs b ≡ some (i, m, b')
    → Taken cs b i m b'
take_buffered-Taken cs b i m b' h =
    let (j, e, t) = take_buffered-Taken_from zero cs b i m b' h in
    let same : i ≡ j = omega arith in rw same t
