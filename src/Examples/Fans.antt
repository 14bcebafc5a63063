-- ===== src/Examples/Fans.antt =====
-- A fan-out over two items whose children run in the other order.
use durableroutine_go.Base.{◌≡◌, refl, [], ◌∷◌, map}
use durableroutine_go.Base.Int.{◌-ℤ◌}
use mathlib.Core.List.{List, Perm}
use durableroutine_go.Services.Fanout.{
  ItemInput, ItemResult, FanoutItem, item_input, item_result, collecting, collected, waits_for_more,
}
use durableroutine_go.Services.Fanout.Collect.{
  Parent, waiting, finished, Run, all_done, child, receive, Run-collects,
}

abbrev first : FanoutItem
first = record { id = "1"; item_data = "a" }

abbrev second : FanoutItem
second = record { id = "2"; item_data = "b" }

abbrev one : ItemInput
one = record { id = "1"; item_data = "a"; parent_id = "p" }

abbrev two : ItemInput
two = record { id = "2"; item_data = "b"; parent_id = "p" }

abbrev end : Parent
end = finished (record { results = item_result two ∷ item_result one ∷ [] })

second_first :
    Run end
      (map (item_input "p") (first ∷ second ∷ []))
      (waiting (collecting (record { items = first ∷ second ∷ [] })))
unfolding item_input collecting receive collected waits_for_more ◌-ℤ◌
second_first = child (one ∷ []) two [] refl (child [] one [] refl all_done)

Run-collects_example :
    (results : List ItemResult) × (end ≡ finished (record { results = results }))
    × Perm results (map item_result (map (item_input "p") (first ∷ second ∷ [])))
Run-collects_example = Run-collects "p" first (second ∷ []) end second_first
