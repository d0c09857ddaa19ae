-- ===== src/Scoring.antt =====
-- backend/src/services/scoring/scoringService.ts: fantasy points of a squad in a gameweek.
pub mod AutoSub
pub mod Lineup
pub mod Formation
