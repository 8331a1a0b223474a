-- ===== src/RedTeam.antt =====
-- backend/app/redteam: adaptive red team campaigns.
pub mod Budget
pub mod Round
pub mod Campaign
pub mod Selector
pub mod Attack
pub mod Engine
mod Tests
