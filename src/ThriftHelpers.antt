-- ===== src/ThriftHelpers.antt =====
-- source/thriftHelpers/ThriftModelOperators.cpp: the orders of the generated types that stand in
-- sets.
pub mod ModelOperators
