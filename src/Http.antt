-- ===== src/Http.antt =====
-- internal/http: the middlewares.
pub mod RateLimit
pub mod Auth
pub mod Cors
pub mod FileHandler
pub mod AdminHandler
pub mod Middleware
pub mod Audit
pub mod Server
