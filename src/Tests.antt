-- ===== src/Tests.antt =====
-- Concrete inputs on which the results are applied.
mod Samples
mod AuthRuns
mod SigningRuns
mod Races
mod PushRuns
mod HandlerRuns
mod HashRuns
mod PasskeyRuns
mod ServiceRuns
mod MiddlewareRuns
mod UtilRuns
mod ReplyRuns
