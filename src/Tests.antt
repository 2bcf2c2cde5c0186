-- ===== src/Tests.antt =====
-- Sample pipelines, and the theorems applied to them.
mod Samples
mod Runs
mod Edges
mod Graphs
mod Handling
mod Styles
mod Dots
mod Jsons
mod Fans
