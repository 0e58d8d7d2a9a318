-- ===== src/Security.antt =====
-- app/security: the throttle of the authentication routes.
pub mod SlidingWindowLimiter
pub mod RateLimitSettings
pub mod RateLimitMiddleware
