-- ===== src/Tasks.antt =====
-- broker/tasks: the tasks that call AWS and Let's Encrypt. A service is a parameter: each of its
-- calls is a function of the state of the outside world, which answers and changes that state.
pub mod Work
pub mod Rules
pub mod Settings
pub mod Polling
pub mod Route53
pub mod HealthChecks
pub mod CloudFront
pub mod Alb
pub mod Iam
pub mod Acme
pub mod Sns
pub mod Waf
pub mod Shield
pub mod CloudWatch
pub mod Balancers
pub mod InstanceType
mod Examples
unfoldable pub use Work.*
