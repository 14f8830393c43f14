-- ===== src/Tests.antt =====
-- Concrete runs of the components.
mod Workflow
mod Authoring
mod Resolver
mod Identity
mod Patch
mod Plan
mod Validate
mod Concepts
