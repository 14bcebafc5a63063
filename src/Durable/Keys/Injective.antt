-- ===== src/Durable/Keys/Injective.antt =====
-- The key format of internal/durablecore/keys.go determines the kinds that it was built from, as
-- long as no kind holds the separator.
use Prim.Native.Char.{Char, code}
use text.Mathlib.TextLemmas.{
  head-eq_of_cons-eq, tail-eq_of_cons-eq, nil-append, cons-append, append_assoc,
}
use mathlib.Core.Bool.{false≢true}
use durableroutine_go.Base.{String, ◌<>◌, ◌≡◌, ◌≢◌, refl, sym, ap, ◌∙◌, ◌==◌, false, arith, eq_iff}
use durableroutine_go.Durable.Keys.{handler_key, send_key, call_key, error_key}

abbrev pub HasNoColon : String → Type 0
HasNoColon String.[] = Unit
HasNoColon (String.◌∷◌ c s) = (code c ≢ b':') × HasNoColon s

abbrev colon : Char
colon = ":"

-- `":" <> t` begins with the separator.
colon-append : (t : String) → ":" <> t ≡ String.◌∷◌ colon t
colon-append t = cons-append colon String.[] t ∙ ap (String.◌∷◌ colon) (nil-append t)

split_at_colon :
    (s u t v : String)
    → HasNoColon s
    → HasNoColon u
    → s <> String.◌∷◌ colon t ≡ u <> String.◌∷◌ colon v
    → (s ≡ u) × (t ≡ v)
split_at_colon String.[] String.[] t v hs hu e = (refl, tail-eq_of_cons-eq (simp nil-append at e))
split_at_colon String.[] (String.◌∷◌ d u) t v hs hu e =
    absurd (hu.0 (ap code (sym (head-eq_of_cons-eq (simp (nil-append, cons-append) at e)))))
split_at_colon (String.◌∷◌ c s) String.[] t v hs hu e =
    absurd (hs.0 (ap code (head-eq_of_cons-eq (simp (nil-append, cons-append) at e))))
split_at_colon (String.◌∷◌ c s) (String.◌∷◌ d u) t v hs hu e =
    let (p, q) = split_at_colon s u t v hs.1 hu.1 (tail-eq_of_cons-eq (simp cons-append at e)) in
    (λ i. String.◌∷◌ (head-eq_of_cons-eq (simp cons-append at e) i) (p i), q)

-- The routes that the keys stand for: a handler, a send handler, a call handler, and the recovery
-- handler of a route.
pub data Route : Type 0 where
  handler : String → String → Route
  send : String → String → String → Route
  call : String → String → String → String → Route
  error : Route → Route

abbrev pub render : Route → String
render (handler k r) = handler_key k r
render (send i e r) = send_key i e r
render (call i q p r) = call_key i q p r
render (error k) = error_key (render k)

-- No kind but the last holds the separator.
abbrev pub IsPlain : Route → Type 0
IsPlain (handler k r) = HasNoColon k
IsPlain (send i e r) = HasNoColon i × HasNoColon e
IsPlain (call i q p r) = HasNoColon i × HasNoColon q × HasNoColon p
IsPlain (error k) = IsPlain k

abbrev tag : Route → String
tag (handler k r) = "handler"
tag (send i e r) = "send"
tag (call i q p r) = "call"
tag (error k) = "error"

abbrev body : Route → String
body (handler k r) = k <> String.◌∷◌ colon r
body (send i e r) = i <> String.◌∷◌ colon (e <> String.◌∷◌ colon r)
body (call i q p r) = i <> String.◌∷◌ colon (q <> String.◌∷◌ colon (p <> String.◌∷◌ colon r))
body (error k) = render k

split_tag : (t x : String) → (t <> ":") <> x ≡ t <> String.◌∷◌ colon x
split_tag t x = append_assoc t ":" x ∙ ap (λ y. t <> y) (colon-append x)

render-tag-body : (k : Route) → render k ≡ tag k <> String.◌∷◌ colon (body k)
unfolding handler_key send_key call_key error_key
render-tag-body (handler k r) = split_tag "handler" _ ∙ simp colon-append
render-tag-body (send i e r) = split_tag "send" _ ∙ simp colon-append
render-tag-body (call i q p r) = split_tag "call" _ ∙ simp colon-append
render-tag-body (error k) = split_tag "error" _

tag-HasNoColon : (k : Route) → HasNoColon (tag k)
tag-HasNoColon (handler k r) = omega arith
tag-HasNoColon (send i e r) = omega arith
tag-HasNoColon (call i q p r) = omega arith
tag-HasNoColon (error k) = omega arith

-- Equal keys have equal tags and bodies.
render_parts : (a b : Route) → render a ≡ render b → (tag a ≡ tag b) × (body a ≡ body b)
render_parts a b e =
    split_at_colon (tag a) (tag b) (body a) (body b) (tag-HasNoColon a) (tag-HasNoColon b)
      (sym (render-tag-body a) ∙ e ∙ render-tag-body b)

-- Tags of different shapes differ.
clash {ℓ} : {A : Type ℓ} (s t : String) → (s == t) ≡ false → s ≡ t → A
clash s t ne e = absurd (false≢true (sym ne ∙ (eq_iff s t).1 e))

-- Two routes without a separator in their kinds (the result kind excepted) that have the same key
-- are the same route: handlers of different shapes or kinds never share a registry entry.
pub render-injective : (a b : Route) → IsPlain a → IsPlain b → render a ≡ render b → a ≡ b
render-injective (handler k r) (handler k' r') pa pb e =
    let (p, q) = split_at_colon k k' r r' pa pb (render_parts (handler k r) (handler k' r') e).1 in
    λ i. handler (p i) (q i)
render-injective (send i x r) (send i' x' r') pa pb e =
    let (p, q) =
      split_at_colon i i' _ _ pa.0 pb.0 (render_parts (send i x r) (send i' x' r') e).1 in
    let (p', q') = split_at_colon x x' r r' pa.1 pb.1 q in λ j. send (p j) (p' j) (q' j)
render-injective (call i x y r) (call i' x' y' r') pa pb e =
    let (p, q) =
      split_at_colon i i' _ _ pa.0 pb.0 (render_parts (call i x y r) (call i' x' y' r') e).1 in
    let (p', q') = split_at_colon x x' _ _ pa.1 pb.1 q in
    let (p'', q'') = split_at_colon y y' r r' pa.2 pb.2 q' in λ j. call (p j) (p' j) (p'' j) (q'' j)
render-injective (error a) (error b) pa pb e =
    ap error (render-injective a b pa pb (render_parts (error a) (error b) e).1)
render-injective a b pa pb e = clash (tag a) (tag b) refl (render_parts a b e).0

-- With a separator inside a kind keys collide: the send handlers of the kinds `a:b` and `c` and of the
-- kinds `a` and `b:c` have the same key.
send_key-collides : (a b c r : String) → send_key (a <> ":" <> b) c r ≡ send_key a (b <> ":" <> c) r
unfolding send_key
send_key-collides a b c r = simp append_assoc
