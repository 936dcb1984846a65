-- ===== src/Cohorts/Honesty/Steps.antt =====
-- packages/service/src/operator-cohorts.ts: the promises of the held configurations, step by step.
use btcr2_aggregation.Cohorts.State.{State}
