-- ===== src/Fleet.antt =====
-- gleanflow/fleet/base.py: the workers of a run, as local threads or as jobs of AWS Batch.
pub mod Local
pub mod Batch
pub mod Sizing
