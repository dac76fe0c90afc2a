-- ===== src/Views.antt =====
-- The scripts of the pages under apps/admin-web/src/views, and of apps/admin-web/src/App.vue.
pub mod TaskRuns
pub mod Services
pub mod TaskRun
pub mod Revision
pub mod Service
pub mod Records
pub mod Shell
pub mod Login
pub mod Status
pub mod Dashboard
pub mod Projects
pub mod Governance
pub mod Latest
pub mod Publishing
pub mod Choosing
pub mod Navigation
pub mod Paging
pub mod Races
mod Tests
