-- ===== src/Tests.antt =====
-- Tests of the models on concrete inputs, with the theorems applied to them.
mod Plan
mod Compress
mod Text
mod Sse
mod Patch
mod StrMap
mod Router
mod Security
mod Guardrail
mod React
