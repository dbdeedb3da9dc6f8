-- ===== src/Examples/Login.antt =====
-- examples/example_route_context.cpp and examples/example_route_matcher.cpp
pub mod Context
pub mod Matchers
pub mod Equivalence
