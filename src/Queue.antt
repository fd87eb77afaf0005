-- ===== src/Queue.antt =====
-- gleanflow/queue: the task planes.
pub mod Local
pub mod Sqs
