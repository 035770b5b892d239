-- ===== src/Calculation.antt =====
-- packages/research-core/src/evidence-calculation.ts: exact arithmetic on cited quantities.
pub mod Integers
pub mod Fractions
pub mod Quantities
pub mod Shapes
pub mod Gathering
pub mod Formulas
pub mod Evaluation
pub mod Sums
pub mod Grounded
pub mod Outcome
pub mod Denominators
pub mod Totality
