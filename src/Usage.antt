-- ===== src/Usage.antt =====
-- internal/services/usagepipeline: the record of each request, budgets and alerts.
pub mod Tables
pub mod Persist
pub mod Budget
pub mod Alerts
pub mod Spending
pub mod Cooldown
pub mod Pricing
pub mod Logger
pub mod Rolling
