-- ===== src/Tests.antt =====
-- Runs of the modelled code on small inputs, and the theorems at such inputs.
mod Queues
mod Cells
mod Keys
mod Frames
mod Polars
mod Stores
mod Servers
mod Fleets
mod Partitions
mod Pipelines
mod Trackers
mod Workers
mod Controllers
mod Contexts
mod Messages
mod Checkpoints
mod Remedies
mod Runs
mod Wholes
mod Clouds
mod Agents
mod Settings
