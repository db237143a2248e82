-- ===== src/Tasks/Examples.antt =====
-- Tests of the tasks: services that answer in a simple way.
mod Dns
mod Cdn
mod Balancers
mod Alarms
mod Orders
