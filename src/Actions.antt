-- ===== src/Actions.antt =====
-- src/actions: the search over the bound in inclusion_test.cpp and the loop of synthesis2.cpp. What
-- runs the antichain algorithm of the library Limi is a parameter.
pub mod Inclusion
pub mod Loop
