-- ===== src/Operator.antt =====
-- src/observer/sql/operator and the tuples of src/observer/sql/expr/tuple.h: the operators that
-- answer a query, each a stream of tuples over the streams of its children.
pub mod Tuple
pub mod Stream
pub mod Predicate
pub mod Join
pub mod Scan
mod Tests
