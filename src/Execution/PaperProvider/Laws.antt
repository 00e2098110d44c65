-- ===== src/Execution/PaperProvider/Laws.antt =====
-- What placing an order with the paper broker promises
-- (backend/app/modules/execution/paper_provider.py and broker_sync.py).
use trading_ai_framework.Prelude.{◌≡◌, Option, none, some, arith}
use trading_ai_framework.Prelude.Text.{String}
use trading_ai_framework.Domain.{OrderStatus}
use trading_ai_framework.Execution.BrokerSync.{map_order_status}
use trading_ai_framework.Execution.PaperProvider.{paper_order_status}

-- The status of an order by its broker's word, or FAILED for a word that is not known.
abbrev pub or_failed : Option OrderStatus → OrderStatus
or_failed none = OrderStatus.failed
or_failed (some status) = status

-- Placing an order and synchronising it read the broker's status alike; a status that is unknown to
-- the synchronisation makes a placed order FAILED.
pub paper_order_status-eq-map_order_status :
    (status : String) → paper_order_status status ≡ or_failed (map_order_status status)
unfolding paper_order_status map_order_status
paper_order_status-eq-map_order_status status = ground arith
