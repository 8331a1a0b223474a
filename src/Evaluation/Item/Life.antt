-- ===== src/Evaluation/Item/Life.antt =====
-- The life of an item, over every sequence of calls.
use redops.Base.{
  ℕ, String, ◌≡◌, ◌==◌, ◌&&◌, refl, ◌⊎◌, is_some, Bool, true, false, Option, none, some, List, [],
  ◌∷◌, arith, Clock, raise, is_ok,
}
use redops.Ai.{FailureReason}
use redops.Evaluation.Item.{
  ItemStatus, pending, running, completed, failed, skipped, cancelled, same_item_status, ItemResult,
  EvaluationItem, Method, start, complete, fail, skip, cancel,
}

-- The methods, as requests.
pub data Request (D : Type 0) : Type 0 where
  to_start : Request D
  to_complete : ItemResult D → Request D
  to_fail : D → String → Option FailureReason → Request D
  to_skip : Request D
  to_cancel : Request D

-- The diagram of an item's life.
unfoldable pub item_edge : ItemStatus → ItemStatus → Bool
item_edge pending running = true
item_edge running completed = true
item_edge completed _ = false
item_edge _ failed = true
item_edge pending skipped = true
item_edge running skipped = true
item_edge pending cancelled = true
item_edge running cancelled = true
item_edge _ _ = false

unfoldable pub is_failure_of : {D : Type 0} → ℕ → Option (ItemResult D) → Bool
is_failure_of id none = false
is_failure_of id (some r) = same_item_status r.status failed && r.item_id == id && is_some r.error

-- An item that is done or has failed has a result, a failed one its own error.
pub record IsConsistent {D : Type 0} (item : EvaluationItem D) : Type 0 where
  pub fresh : (item.status ≡ pending) ⊎ (item.status ≡ running) → item.result ≡ none
  pub done : item.status ≡ completed → is_some item.result ≡ true
  pub broken : item.status ≡ failed → is_failure_of item.id item.result ≡ true

module _ {D : Type 0} where
  unfoldable pub serve : Request D → Method D
  unfolding start complete fail skip cancel
  serve to_start = start
  serve (to_complete r) = complete r
  serve (to_fail d e w) = fail d e w
  serve to_skip = skip
  serve to_cancel = cancel

  unfoldable pub serve_all : List (Request D × Clock) → EvaluationItem D → EvaluationItem D
  serve_all [] item = item
  serve_all ((r, now) ∷ rs) item = serve_all rs (serve r now item).self

  -- A request of an item that raises leaves the item as it was, and raises the item's status.
  pub item_refused :
      (r : Request D) (now : Clock) (item : EvaluationItem D)
      → is_ok (serve r now item) ≡ false
      → serve r now item ≡ raise item item.status
  unfolding serve
  item_refused to_start now item h = ground arith
  item_refused r now item h = ground arith

  -- A request that an item accepts moves it along an edge of the diagram.
  pub serve-item_edge :
      (r : Request D) (now : Clock) (item : EvaluationItem D)
      → is_ok (serve r now item) ≡ true
      → item_edge item.status (serve r now item).self.status ≡ true
  unfolding serve item_edge
  serve-item_edge to_start now item h = ground arith
  serve-item_edge r now item h = ground arith

  -- The request that asks for a status.
  unfoldable pub request_for : ItemStatus → ItemResult D → Request D
  request_for pending r = to_start
  request_for running r = to_start
  request_for completed r = to_complete r
  request_for failed r = to_fail r.scores_and_cost "" none
  request_for skipped r = to_skip
  request_for cancelled r = to_cancel

  -- Every edge of the diagram from the item's status is open: the request for its end is accepted, and
  -- leads there.
  pub item_edge-serve :
      (t : ItemStatus) (r : ItemResult D) (now : Clock) (item : EvaluationItem D)
      → item_edge item.status t ≡ true
      → (is_ok (serve (request_for t r) now item) ≡ true)
        × ((serve (request_for t r) now item).self.status ≡ t)
  unfolding serve item_edge request_for
  item_edge-serve pending r now item h = ground arith
  item_edge-serve t r now item h = ground arith

  pub serve-IsConsistent :
      (r : Request D) (now : Clock) (item : EvaluationItem D)
      → IsConsistent item
      → IsConsistent (serve r now item).self
  unfolding serve is_failure_of
  serve-IsConsistent to_start now item h = ground arith
  serve-IsConsistent r now item h = ground arith

  serve_completed :
      (r : Request D) (now : Clock) (item : EvaluationItem D)
      → item.status ≡ completed
      → serve r now item ≡ raise item completed
  unfolding serve
  serve_completed to_start now item h = ground arith
  serve_completed r now item h = ground arith

  -- A completed item stays as it is under every sequence of requests.
  pub serve_all-completed :
      (rs : List (Request D × Clock)) (item : EvaluationItem D)
      → item.status ≡ completed
      → serve_all rs item ≡ item
  unfolding serve_all
  serve_all-completed [] item h = refl
  serve_all-completed ((r, now) ∷ rs) item h =
      rw (serve_completed r now item h) (serve_all-completed rs item h)

  -- From a consistent item, every sequence of requests leads to a consistent item: it has no result
  -- before it ends, a result once it is completed, and its own error once it has failed.
  pub serve_all-IsConsistent :
      (rs : List (Request D × Clock)) (item : EvaluationItem D)
      → IsConsistent item
      → IsConsistent (serve_all rs item)
  unfolding serve_all
  serve_all-IsConsistent [] item h = h
  serve_all-IsConsistent ((r, now) ∷ rs) item h =
      serve_all-IsConsistent rs (serve r now item).self (serve-IsConsistent r now item h)
