-- ===== src/Controller.antt =====
-- gleanflow/controller.py: the control plane.
pub mod Manifest
pub mod Plan
pub mod Steps
pub mod Remedy
pub mod Failures
pub mod Drain
pub mod Stages
pub mod Event
pub mod Pipelines
pub mod Cloud
pub mod Setup
pub mod Triage
