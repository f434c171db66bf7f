-- ===== src/Api.antt =====
-- internal/api: the handlers of the API's routes.
pub mod Jobs
pub mod Deploy
pub mod Stream
