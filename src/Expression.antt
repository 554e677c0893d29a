-- ===== src/Expression.antt =====
-- pkg/internal/expression: evaluating `${{ a.b.c }}` against what a step can see.
pub mod Dig
pub mod Interpolate
