-- ===== src/Intents.antt =====
-- packages/service/src/cohort-intent.ts: why a cohort is about to be stopped, declared before the
-- library call that stops it. The registry is the bounded map of its entries.
use btcr2_aggregation.Prelude.{String, Option, ℕ}
use btcr2_aggregation.OrderedMap.{OrderedMap, get, delete, remember}

pub data CohortIntent : Type 0 where
  canceled window_expired : CohortIntent

abbrev pub max_intents : ℕ
max_intents = 24

abbrev pub CohortIntents : Type 0
CohortIntents = OrderedMap CohortIntent

unfoldable pub declare : String → CohortIntent → CohortIntents → CohortIntents
declare cohort_id intent intents = remember max_intents cohort_id intent intents

unfoldable pub read : String → CohortIntents → Option CohortIntent
read cohort_id intents = get cohort_id intents

unfoldable pub clear : String → CohortIntents → CohortIntents
clear cohort_id intents = delete cohort_id intents
