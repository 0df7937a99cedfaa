-- ===== src/Router.antt =====
-- internal/router: the routes of each alias, their circuit breakers and the choice among them.
pub mod Engine
pub mod Draw
pub mod Breaker
