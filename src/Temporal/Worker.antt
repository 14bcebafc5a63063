-- ===== src/Temporal/Worker.antt =====
-- backend/temporal/worker.go: the registry that a worker hands to the SDK. The polling is the SDK's.
use durableroutine_go.Base.{◌≡◌, refl, String, [], ◌∷◌, arith}
use durableroutine_go.Base.Dict.{Dict, get, put, get-put}
use durableroutine_go.Durable.Worker.{HandlerEntry, Worker}

-- the loop of `NewWorker` over `w.Handlers()`. A map gives its entries in any order, each key once.
unfoldable pub copy_handlers : Dict HandlerEntry → Dict HandlerEntry
copy_handlers [] = []
copy_handlers ((key, entry) ∷ rest) = put key entry (copy_handlers rest)

-- the `registry` of `NewWorker`
unfoldable pub new_registry : Worker → Dict HandlerEntry
unfolding copy_handlers
new_registry w = copy_handlers w.handlers

-- A copied registry has the worker's entries.
pub get-copy_handlers :
    (key : String) (handlers : Dict HandlerEntry)
    → get key (copy_handlers handlers) ≡ get key handlers
unfolding copy_handlers get
get-copy_handlers key [] = refl
get-copy_handlers key ((k, entry) ∷ rest) =
    ground (arith, get-put k key entry (copy_handlers rest), get-copy_handlers key rest)
