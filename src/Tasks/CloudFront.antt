-- ===== src/Tasks/CloudFront.antt =====
-- broker/tasks/cloudfront.py
pub mod Behavior
pub mod Exclusive
pub mod Config
pub mod Steps
pub mod Again
pub mod Waits
