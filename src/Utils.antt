-- ===== src/Utils.antt =====
-- src/depthfusion/utils: the evaluation of the dashboard's expressions.
pub mod Expressions
