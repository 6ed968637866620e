-- ===== src/Python.antt =====
-- What the program uses of Python itself: exceptions, numbers, JSON values.
pub mod Decimal
pub mod Json
pub mod Regex
