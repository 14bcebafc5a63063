-- ===== src/Examples/Strings.antt =====
-- Lists of strings as JSON arrays.
use durableroutine_go.Base.{◌≡◌, refl, String, List, [], ◌∷◌}
use durableroutine_go.Base.Result.{Result, ok, err, ◌>>=◌}
use durableroutine_go.Durable.Payload.{Json, Items}

abbrev pub strings_json : List String → Items
strings_json [] = Items.nil
strings_json (s ∷ ss) = Items.cons (Json.string s) (strings_json ss)

unfoldable pub strings_of : Items → Result (List String)
strings_of Items.nil = ok []
strings_of (Items.cons (Json.string s) js) = strings_of js >>= λ ss. ok (s ∷ ss)
strings_of (Items.cons _ js) = err "cannot unmarshal into string"

pub strings_of-strings_json : (ss : List String) → strings_of (strings_json ss) ≡ ok ss
unfolding strings_of
strings_of-strings_json [] = refl
strings_of-strings_json (s ∷ ss) = rw (strings_of-strings_json ss) refl
